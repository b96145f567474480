-- ===== src/Ledger/Reconciled/Tripwire.antt =====
-- settlement-batch-builder.service.ts: `recomputeBatch` keeps the ledger reconciled, and its
-- `assertLedgerIdentity` never refuses.
use kurtar.Prelude.{
  ℕ, ◌≡◌, ◌≢◌, refl, sym, ◌∙◌, true, some, List, [], ◌∷◌, ◌⊎◌, ◌++◌, inl, inr, map, arith, leb, All,
  Bool-cases, Option-cases, Result, ok, err, Result-cases,
}
use kurtar.Prelude.Int.{pos}
use kurtar.Market.Rows.{find}
use kurtar.Market.Rows.Laws.{find-key}
use kurtar.Settlement.Rate.{JsNumber, int}
use kurtar.Settlement.Batch.{Settlement, Params, compute_settlement}
use kurtar.Settlement.Batch.Accounting.{compute_settlement_iff}
use kurtar.Settlement.Clawback.{allocate_clawback}
use kurtar.Settlement.Clawback.Attribution.{IsSplit, compute_settlement-allocates}
use kurtar.Ledger.State.{
  SettlementBatch, SettlementLine, ClawbackAllocation, Ledger, MerchantTerms, Surroundings,
  PlatformPricing, Error, batch_not_found, merchant_not_found, no_platform_pricing,
  settlement_error, ledger_divergence, carried_demand_already_collected, find_batch, batch_id_of,
  line_id_of, is_recomputable, contains,
}
use kurtar.Ledger.Pass.{
  PendingSettlementLine, Pass, pass_of, resolve_platform_pricing,
  resolve_bag_fee_cents_for_merchant,
}
use kurtar.Ledger.Recompute.{
  is_reconciled, all_reconciled, funded_lines, has_ledger_identity, honours_irrevocable_claims,
  checked, rederive, recompute_batch, recompute_params,
}
use kurtar.Ledger.Reconciled.{IsReconciled, IsLineSound, IsBatchSound}
use kurtar.Ledger.Reconciled.Funding.{compute_settlement-All}
use kurtar.Ledger.Reconciled.Commit.{commit_pass-IsReconciled, commit_pass-IsBatchSound}

IsLineSound-reconciled :
    (as_ : List ClawbackAllocation) (l : SettlementLine)
    → IsLineSound as_ l
    → is_reconciled as_ l ≡ true
IsLineSound-reconciled as_ l s =
    let stored = s.stored in let within = s.within in ground (arith, stored, within)

all_reconciled_sound :
    (ids : List ℕ) (as_ : List ClawbackAllocation) (ls : List SettlementLine)
    → All (IsLineSound as_) ls
    → all_reconciled ids as_ ls ≡ true
all_reconciled_sound ids as_ [] a = refl
all_reconciled_sound ids as_ (l ∷ ls) a = elim (Bool-cases (contains l.reservation_id ids)) [
  | inl t ↦ rw (t, IsLineSound-reconciled as_ l a.0, all_reconciled_sound ids as_ ls a.1) refl
  | inr t ↦ rw (t, all_reconciled_sound ids as_ ls a.1) refl
]

-- In a reconciled ledger the tripwire lets the batch pass.
pub has_ledger_identity_sound :
    (b : SettlementBatch) (ids : List ℕ) (db : Ledger)
    → IsReconciled db
    → IsBatchSound db.allocations db.claims b
    → has_ledger_identity b ids db ≡ true
unfolding has_ledger_identity
has_ledger_identity_sound b ids db h s =
    let lines =
      all_reconciled_sound (ids ++ funded_lines b.id db.allocations) db.allocations db.lines
        h.lines in
    let claim = s.claimed in
    let absorbed = s.absorbed in
    let withheld = s.withheld in rw lines (ground (arith, claim, absorbed, withheld))

-- The transaction returned a reconciled ledger, or threw something else than a divergence.
abbrev pub Outcome : Result Error (SettlementBatch × Ledger) → Type 0
Outcome answer =
    ((e : Error) × (answer ≡ err e) × (e ≢ ledger_divergence))
    ⊎ ((b : SettlementBatch) × (db : Ledger) × (answer ≡ ok (b, db)) × IsReconciled db)

checked-Outcome :
    (pass : Pass) (b : SettlementBatch) (db : Ledger)
    → IsReconciled db
    → IsBatchSound db.allocations db.claims b
    → Outcome (checked pass (b, db))
unfolding checked
checked-Outcome pass b db h s =
    let identity = has_ledger_identity_sound b (map line_id_of pass.locked) db h s in
    elim (Bool-cases (honours_irrevocable_claims b db)) [
      | inl t ↦ inr (b, db, rw (identity, t) refl, h)
      | inr t ↦ inl (carried_demand_already_collected, rw (identity, t) refl, λ q. cc)
    ]

resolve_platform_pricing-error :
    (as_of : ℕ) (pricings : List PlatformPricing) (e : Error)
    → resolve_platform_pricing as_of pricings ≡ err e
    → e ≡ no_platform_pricing
unfolding resolve_platform_pricing
resolve_platform_pricing-error as_of [] e h = cc
resolve_platform_pricing-error as_of (p ∷ ps) e h = elim (Bool-cases (leb p.effective_from as_of)) [
  | inl t ↦ let impossible : ok p ≡ err e = rw t at h in cc
  | inr t ↦ resolve_platform_pricing-error as_of ps e (rw t at h)
]

pub resolve_bag_fee-error :
    (merchant : MerchantTerms) (as_of : ℕ) (pricings : List PlatformPricing) (e : Error)
    → resolve_bag_fee_cents_for_merchant merchant as_of pricings ≡ err e
    → e ≡ no_platform_pricing
unfolding resolve_bag_fee_cents_for_merchant
resolve_bag_fee-error merchant as_of pricings e h =
    elim (Option-cases merchant.bag_fee_cents_override) [
      | inr (fee, t) ↦ let impossible : ok fee ≡ err e = rw t at h in cc
      | inl t ↦ elim (Result-cases (resolve_platform_pricing as_of pricings)) [
        | inl (e2, f) ↦
            let same : err e2 ≡ err e = rw (t, f) at h in
            let first = resolve_platform_pricing-error as_of pricings e2 f in cc
        | inr (p, f) ↦ let impossible : ok p.bag_fee_cents ≡ err e = rw (t, f) at h in cc
      ]
    ]

module _ (around : Surroundings) (b : SettlementBatch) (now : ℕ)
    (pending : List PendingSettlementLine) (db : Ledger) (h : IsReconciled db)
    (here : find batch_id_of b.id db.batches ≡ some b) (open_ : is_recomputable b ≡ true) where
  abbrev params : MerchantTerms → JsNumber → Params
  params merchant fee = recompute_params around b.id (pass_of around b merchant pending db) fee

  settled-Outcome :
      (merchant : MerchantTerms) (fee : JsNumber) (result : Settlement)
      → around.merchant b.merchant_id ≡ some merchant
      → resolve_bag_fee_cents_for_merchant merchant b.period_start around.pricings ≡ ok fee
      → compute_settlement (params merchant fee) ≡ ok result
      → Outcome (rederive around b now pending db)
  unfolding rederive
  settled-Outcome merchant fee result m f computed =
      let pass = pass_of around b merchant pending db in
      let valid = (compute_settlement_iff (params merchant fee)).0 (result, computed) in
      let (r, a, again, allocated, split) =
        compute_settlement-allocates (params merchant fee) pass.carried_from_prior pass.candidates
          valid (omega arith) in
      let results : ok r ≡ ok result = sym again ∙ computed in
      let same : r ≡ result = cc in
      let allocated0 : allocate_clawback (int (pos result.refund_clawback_cents))
            (int (pos pass.carried_from_prior)) pass.candidates
          ≡ ok a =
        rw same at allocated in
      let split0 : IsSplit result.refund_clawback_cents pass.carried_from_prior pass.candidates a =
        rw same at split in
      let reconciled =
        commit_pass-IsReconciled around b merchant now pending db h here open_ result a split0
          (λ P all. compute_settlement-All P (params merchant fee) result computed all) in
      let sound =
        commit_pass-IsBatchSound around b merchant now pending db h here open_ result a split0
          (λ P all. compute_settlement-All P (params merchant fee) result computed all) in
      rw (m, f, computed, allocated0) (checked-Outcome pass _ _ reconciled sound)

  rederive-Outcome : Outcome (rederive around b now pending db)
  unfolding rederive
  rederive-Outcome = elim (Option-cases (around.merchant b.merchant_id)) [
    | inl m ↦ inl (merchant_not_found, rw m refl, λ q. cc)
    | inr (merchant, m) ↦
        elim (Result-cases
          (resolve_bag_fee_cents_for_merchant merchant b.period_start around.pricings)) [
            | inl (e, f) ↦
                let cause = resolve_bag_fee-error merchant b.period_start around.pricings e f in
                inl (
                  e,
                  rw (m, f) refl,
                  λ q. let clash : no_platform_pricing ≡ ledger_divergence = sym cause ∙ q in cc,
                )
            | inr (fee, f) ↦ elim (Result-cases (compute_settlement (params merchant fee))) [
              | inl (e, c) ↦ inl (settlement_error e, rw (m, f, c) refl, λ q. cc)
              | inr (result, c) ↦ settled-Outcome merchant fee result m f c
            ]
          ]
  ]

-- If the ledger is reconciled, `recomputeBatch` of any batch, with any new lines, returns with a
-- ledger that is reconciled again, or throws another error than the ledger divergence: every line
-- stores the sum of its allocations, within its demand, every batch's withheld clawback is what its
-- allocations and its claim account for, and the check before the commit never refuses.
pub recompute_batch-IsReconciled :
    (around : Surroundings) (batch_id now : ℕ) (pending : List PendingSettlementLine) (db : Ledger)
    → IsReconciled db
    → Outcome (recompute_batch around batch_id now pending db)
unfolding recompute_batch find_batch
recompute_batch-IsReconciled around batch_id now pending db h =
    elim (Option-cases (find batch_id_of batch_id db.batches)) [
      | inl e ↦ inl (batch_not_found, rw (e, recompute_batch) refl, λ q. cc)
      | inr (b, e) ↦
          let same = find-key batch_id_of batch_id db.batches b e in
          elim (Bool-cases (is_recomputable b)) [
            | inr t ↦ inr (b, db, rw (e, t, recompute_batch) refl, h)
            | inl t ↦
                let outcome = rederive-Outcome around b now pending db h (rw (← same) at e) t in
                rw (e, t, recompute_batch) outcome
          ]
    ]
