-- ===== src/Ledger/Reconciled/Guarded.antt =====
-- A guarded update that changes a batch's status only keeps the ledger reconciled.
use kurtar.Prelude.{
  ℕ, ◌≡◌, refl, Bool, true, false, Option, none, some, List, ◌==◌, if◌then◌else◌, Bool-cases,
  Option-cases, inl, inr,
}
use kurtar.Market.Rows.{find, write}
use kurtar.Market.Rows.Laws.{find-write, updated, write-IsUnique, All-write}
use kurtar.Ledger.State.{
  SettlementBatch, ClawbackAllocation, CarriedDemandClaim, Ledger, batch_id_of, has_status_in,
  paid_statuses,
}
use kurtar.Ledger.Reconciled.{
  IsReconciled, IsBatchSound, IsBacked, HasClaimant, is_payable?, is_backed, is_backed_by, owner_of,
}
use kurtar.Ledger.Reconciled.Backed.{All-map}

-- The update leaves the identity and the ledger's amounts of a row, and a paid batch paid.
pub record IsStatusUpdate (guard : SettlementBatch → Bool) (f : SettlementBatch → SettlementBatch)
    : Type 0 where
  pub id : (x : SettlementBatch) → (f x).id ≡ x.id
  pub merchant : (x : SettlementBatch) → (f x).merchant_id ≡ x.merchant_id
  pub refund : (x : SettlementBatch) → (f x).refund_clawback_cents ≡ x.refund_clawback_cents
  pub inherited :
      (x : SettlementBatch)
      → (f x).inherited_external_demand_cents ≡ x.inherited_external_demand_cents
  pub carried :
      (x : SettlementBatch) → (f x).carried_external_demand_cents ≡ x.carried_external_demand_cents
  pub paid :
      (x : SettlementBatch)
      → guard x ≡ true
      → has_status_in paid_statuses x ≡ true
      → has_status_in paid_statuses (f x) ≡ true

module _ (guard : SettlementBatch → Bool) (f : SettlementBatch → SettlementBatch)
    (u : IsStatusUpdate guard f) (k : ℕ) (batches : List SettlementBatch) where
  abbrev moved : List SettlementBatch
  moved = write batch_id_of k guard f batches

  abbrev row_after : ℕ → SettlementBatch → SettlementBatch
  row_after j x = if k == j then updated guard f x else x

  find-moved :
      (j : ℕ) (x : SettlementBatch)
      → find batch_id_of j batches ≡ some x
      → find batch_id_of j moved ≡ some (row_after j x)
  find-moved j x e =
      let after = find-write batch_id_of j k guard f batches u.id in
      elim (Bool-cases (k == j)) [ inl t ↦ rw (after, t, e) refl | inr t ↦ rw (after, t, e) refl ]

  row_after-merchant : (j : ℕ) (x : SettlementBatch) → (row_after j x).merchant_id ≡ x.merchant_id
  row_after-merchant j x = elim (Bool-cases (k == j)) [
    | inl t ↦ elim (Bool-cases (guard x)) [
      | inl g ↦ rw (t, g) (u.merchant x)
      | inr g ↦ rw (t, g) refl
    ]
    | inr t ↦ rw t refl
  ]

  row_after-paid :
      (j : ℕ) (x : SettlementBatch)
      → has_status_in paid_statuses x ≡ true
      → has_status_in paid_statuses (row_after j x) ≡ true
  row_after-paid j x h = elim (Bool-cases (k == j)) [
    | inl t ↦ elim (Bool-cases (guard x)) [ inl g ↦ rw (t, g) (u.paid x g h) | inr g ↦ rw (t, g) h ]
    | inr t ↦ rw t h
  ]

  is_payable?-split :
      (w v : SettlementBatch)
      → is_payable? (some w) (some v) ≡ true
      → (has_status_in paid_statuses w ≡ true) × ((w.merchant_id == v.merchant_id) ≡ true)
  is_payable?-split w v h = elim (Bool-cases (has_status_in paid_statuses w)) [
    | inl t ↦ (t, rw t at h)
    | inr t ↦ let impossible : false ≡ true = rw t at h in cc
  ]

  moved-is_backed_by :
      (owner : Option ℕ) (c : ℕ)
      → is_backed_by batches owner c ≡ true
      → is_backed_by moved owner c ≡ true
  moved-is_backed_by none c h = h
  moved-is_backed_by (some o) c h = elim (Option-cases (find batch_id_of o batches)) [
    | inl n ↦ let impossible : false ≡ true = rw n at h in cc
    | inr (w, n) ↦ elim (Option-cases (find batch_id_of c batches)) [
      | inl m ↦ let impossible : false ≡ true = rw (n, m) at h in cc
      | inr (v, m) ↦
          let both = is_payable?-split w v (rw (n, m) at h) in
          rw (find-moved o w n, find-moved c v m)
            (rw (row_after-paid o w both.0)
              (rw (row_after-merchant o w, row_after-merchant c v) both.1))
    ]
  ]

  moved-HasClaimant : (c : CarriedDemandClaim) → HasClaimant batches c → HasClaimant moved c
  moved-HasClaimant c h = elim (Option-cases (find batch_id_of c.claimant_batch_id batches)) [
    | inl n ↦ let impossible : true ≡ false = rw n at h in cc
    | inr (x, n) ↦ rw (find-moved c.claimant_batch_id x n) refl
  ]

  updated-IsBatchSound :
      (as_ : List ClawbackAllocation) (claims : List CarriedDemandClaim) (x : SettlementBatch)
      → IsBatchSound as_ claims x
      → IsBatchSound as_ claims (f x)
  updated-IsBatchSound as_ claims x s = record {
    claimed = rw (u.inherited x, u.id x) s.claimed;
    absorbed = rw (u.inherited x, u.carried x) s.absorbed;
    withheld = rw (u.refund x, u.id x, u.inherited x, u.carried x) s.withheld;
  }

-- A status update keeps the ledger reconciled.
pub write-IsReconciled :
    (guard : SettlementBatch → Bool) (f : SettlementBatch → SettlementBatch)
    → IsStatusUpdate guard f
    → (k : ℕ) (db : Ledger) → IsReconciled db
    → IsReconciled (record db { batches = write batch_id_of k guard f db.batches })
unfolding is_backed
write-IsReconciled guard f u k db h = record {
  unique_batches = write-IsUnique batch_id_of k guard f db.batches u.id h.unique_batches;
  unique_lines = h.unique_lines;
  backed =
      All-map (IsBacked db.batches db.lines) _ db.allocations
        (λ a e.
          moved-is_backed_by guard f u k db.batches (owner_of a.reservation_id db.lines) a.batch_id
            e)
        h.backed;
  lines = h.lines;
  batches =
      All-write batch_id_of (IsBatchSound db.allocations db.claims) k guard f db.batches
        (λ x e g s. updated-IsBatchSound guard f u k db.batches db.allocations db.claims x s)
        h.batches;
  claimants =
      All-map (HasClaimant db.batches) _ db.claims
        (λ c e. moved-HasClaimant guard f u k db.batches c e) h.claimants;
}

-- A change of the other tables does not touch it.
pub same-IsReconciled :
    (db db2 : Ledger)
    → db2.batches ≡ db.batches
    → db2.lines ≡ db.lines
    → db2.allocations ≡ db.allocations
    → db2.claims ≡ db.claims
    → IsReconciled db
    → IsReconciled db2
same-IsReconciled db db2 e1 e2 e3 e4 h = record {
  unique_batches = rw e1 h.unique_batches;
  unique_lines = rw e2 h.unique_lines;
  backed = rw (e1, e2, e3) h.backed;
  lines = rw (e2, e3) h.lines;
  batches = rw (e1, e3, e4) h.batches;
  claimants = rw (e1, e4) h.claimants;
}
