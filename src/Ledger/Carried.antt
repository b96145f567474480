-- ===== src/Ledger/Carried.antt =====
-- settlement-batch-builder.service.ts: the demand that a held batch hands forward, and the claims
-- that its successors hold on it.
use kurtar.Prelude.{
  ℕ, ◌+◌, ◌-◌, Bool, false, ◌&&◌, not, Option, none, some, List, [], ◌∷◌, ltb, ◌==◌, if◌then◌else◌,
}
use kurtar.Status.Settlement.{held, recomputable_settlement_statuses}
use kurtar.Market.Rows.{find, select, total}
use kurtar.Ledger.State.{
  SettlementBatch, CarriedDemandClaim, find_batch, claimant_of, has_status_in,
}

-- `exportableCarriedDemandCents`; `Math.max(0, -(a - b))` is `b - a` that stops at 0.
unfoldable pub exportable_carried_demand_cents : SettlementBatch → ℕ
exportable_carried_demand_cents b =
    if has_status_in (held ∷ []) b
    then (b.bag_fee_cents + b.bag_fee_vat_cents + b.withholding_cents + b.membership_offset_cents
        - b.gross_cents)
      + b.carried_external_demand_cents
    else 0

-- `discoverCarriedDemandSource`: the merchant's newest other batch, if it is held.
unfoldable pub discover_carried_demand_source : ℕ → ℕ → List SettlementBatch → Option ℕ
discover_carried_demand_source merchant_id exclude_batch_id [] = none
discover_carried_demand_source merchant_id exclude_batch_id (b ∷ bs) =
    if (b.merchant_id == merchant_id) && not (b.id == exclude_batch_id)
    then (if has_status_in (held ∷ []) b then some b.id else none)
    else discover_carried_demand_source merchant_id exclude_batch_id bs

-- The claims that the other batches hold on a source.
abbrev pub taken_by_others : ℕ → ℕ → List CarriedDemandClaim → ℕ
taken_by_others source_batch_id claimant_batch_id claims =
    total
      (λ c.
        if (c.source_batch_id == source_batch_id) && not (c.claimant_batch_id == claimant_batch_id)
        then c.amount_cents
        else 0)
      claims

-- `resolveCarriedDemandFromSource`, or 0 when no source is pinned.
unfoldable pub resolve_carried_demand_from_source :
    Option ℕ → ℕ → List SettlementBatch → List CarriedDemandClaim → ℕ
unfolding find_batch exportable_carried_demand_cents
resolve_carried_demand_from_source none claimant batches claims = 0
resolve_carried_demand_from_source (some source) claimant batches claims =
    elim (find_batch source batches) [
      | none ↦ 0
      | some b ↦ exportable_carried_demand_cents b - taken_by_others source claimant claims
    ]

-- `settlementCarriedDemandClaim.deleteMany({ where: { claimantBatchId } })`.
unfoldable pub delete_own_claim : ℕ → List CarriedDemandClaim → List CarriedDemandClaim
delete_own_claim claimant claims = select (λ c. not (c.claimant_batch_id == claimant)) claims

-- The claim that is created when the amount is positive.
unfoldable pub record_claim : ℕ → Option ℕ → ℕ → List CarriedDemandClaim → List CarriedDemandClaim
record_claim claimant none amount claims = claims
record_claim claimant (some source) amount claims =
    if ltb 0 amount
    then record { claimant_batch_id = claimant; source_batch_id = source; amount_cents = amount }
      ∷ claims
    else claims

abbrev pub claim_amount : Option CarriedDemandClaim → ℕ
claim_amount none = 0
claim_amount (some c) = c.amount_cents

-- `claim?.amountCents ?? 0` of a `findUnique`.
unfoldable pub claimed_by : ℕ → List CarriedDemandClaim → ℕ
unfolding find
claimed_by claimant claims = claim_amount (find claimant_of claimant claims)

abbrev pub is_frozen? : Option SettlementBatch → Bool
is_frozen? none = false
is_frozen? (some b) = not (has_status_in recomputable_settlement_statuses b)

-- What batches that no longer recompute have collected of a source's demand.
unfoldable pub irrevocably_collected : ℕ → List SettlementBatch → List CarriedDemandClaim → ℕ
unfolding find_batch
irrevocably_collected source batches claims =
    total
      (λ c.
        if (c.source_batch_id == source) && is_frozen? (find_batch c.claimant_batch_id batches)
        then c.amount_cents
        else 0)
      claims
