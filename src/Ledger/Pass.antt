-- ===== src/Ledger/Pass.antt =====
-- settlement-batch-builder.service.ts: what `recomputeBatch` reads and resets before it computes, and
-- pricing.service.ts for the bag fee.
use kurtar.Prelude.{
  ℕ, Option, none, some, List, [], ◌∷◌, map, leb, ◌==◌, if◌then◌else◌, Result, ok, err, ◌>>=◌,
}
use kurtar.Prelude.Int.{pos}
use kurtar.Market.Rows.{select}
use kurtar.Settlement.Rate.{JsNumber, int}
use kurtar.Settlement.Batch.{InputLine}
use kurtar.Settlement.Clawback.{Candidate}
use kurtar.Ledger.State.{
  SettlementBatch, SettlementLine, ClawbackAllocation, CarriedDemandClaim, Ledger, MerchantTerms,
  PlatformPricing, Surroundings, Error, merchant_not_found, no_platform_pricing, find_line, is_none,
}
use kurtar.Ledger.Membership.{Due, resolve_due}
use kurtar.Ledger.Clawback.{locked_lines, delete_own_allocations, clawback_candidates}
use kurtar.Ledger.Carried.{
  discover_carried_demand_source, resolve_carried_demand_from_source, delete_own_claim,
}

pub record PendingSettlementLine : Type 0 where
  pub reservation_id : ℕ
  pub redeemed_at : ℕ
  pub gross_cents : ℕ
  pub bag_fee_cents : ℕ
  pub bag_fee_vat_cents : ℕ
  pub withholding_cents : ℕ

abbrev pub new_line : ℕ → PendingSettlementLine → SettlementLine
new_line batch_id p = record {
  reservation_id = p.reservation_id;
  batch_id = batch_id;
  redeemed_at = p.redeemed_at;
  gross_cents = p.gross_cents;
  bag_fee_cents = p.bag_fee_cents;
  bag_fee_vat_cents = p.bag_fee_vat_cents;
  withholding_cents = p.withholding_cents;
  clawback_cents = 0;
  clawback_applied_at = none;
  clawback_batch_id = none;
}

-- `settlementLine.createMany({ …, skipDuplicates: true })`.
unfoldable pub insert_lines :
    ℕ → List PendingSettlementLine → List SettlementLine → List SettlementLine
unfolding find_line
insert_lines batch_id [] lines = lines
insert_lines batch_id (p ∷ ps) lines =
    insert_lines batch_id ps
      (if is_none (find_line p.reservation_id lines) then new_line batch_id p ∷ lines else lines)

-- `resolvePlatformPricing`: the newest row that is in effect.
unfoldable pub resolve_platform_pricing : ℕ → List PlatformPricing → Result Error PlatformPricing
resolve_platform_pricing as_of [] = err no_platform_pricing
resolve_platform_pricing as_of (p ∷ ps) =
    if leb p.effective_from as_of then ok p else resolve_platform_pricing as_of ps

unfoldable pub resolve_bag_fee_cents_for_merchant :
    MerchantTerms → ℕ → List PlatformPricing → Result Error JsNumber
unfolding resolve_platform_pricing
resolve_bag_fee_cents_for_merchant merchant as_of pricings = elim merchant.bag_fee_cents_override [
  | some fee ↦ ok fee
  | none ↦ resolve_platform_pricing as_of pricings >>= λ p. ok p.bag_fee_cents
]

-- `findUniqueOrThrow`.
abbrev pub found_merchant : Option MerchantTerms → Result Error MerchantTerms
found_merchant none = err merchant_not_found
found_merchant (some m) = ok m

abbrev pub input_line : Surroundings → SettlementLine → InputLine
input_line around l = record {
  reservation_id = l.reservation_id;
  gross_cents = int (pos l.gross_cents);
  qty = around.qty l.reservation_id;
}

-- The lines of the batch, as `computeSettlement` takes them.
unfoldable pub input_lines : Surroundings → ℕ → List SettlementLine → List InputLine
input_lines around batch_id lines =
    map (input_line around) (select (λ l. l.batch_id == batch_id) lines)

-- What a recompute has read and reset before it computes: the lines with the new ones, the locked
-- lines, the other batches' allocations and claims, and the inherited demand with its source.
pub record Pass : Type 0 where
  pub lines : List SettlementLine
  pub due : Option Due
  pub locked : List SettlementLine
  pub others : List ClawbackAllocation
  pub candidates : List Candidate
  pub source : Option ℕ
  pub other_claims : List CarriedDemandClaim
  pub carried_from_prior : ℕ

unfoldable pub pass_of :
    Surroundings → SettlementBatch → MerchantTerms → List PendingSettlementLine → Ledger → Pass
unfolding insert_lines resolve_due locked_lines delete_own_allocations clawback_candidates
    discover_carried_demand_source delete_own_claim resolve_carried_demand_from_source
pass_of around batch merchant pending db =
    let lines = insert_lines batch.id pending db.lines in
    let locked = locked_lines around batch db.batches db.allocations lines in
    let others = delete_own_allocations batch.id db.allocations in
    let source =
      if is_none batch.shortfall_resolved_at
      then discover_carried_demand_source batch.merchant_id batch.id db.batches
      else batch.carried_demand_source_batch_id in
    let other_claims = delete_own_claim batch.id db.claims in
    record {
      lines = lines;
      due = resolve_due merchant batch db.subscriptions;
      locked = locked;
      others = others;
      candidates = clawback_candidates others locked;
      source = source;
      other_claims = other_claims;
      carried_from_prior =
          resolve_carried_demand_from_source source batch.id db.batches other_claims;
    }
