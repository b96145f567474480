-- ===== src/Ledger/Open.antt =====
-- settlement-batch-builder.service.ts: `createOrExtendBatch`, the batch of a merchant's day and the
-- lines that are to join it.
use kurtar.Prelude.{
  ℕ, ◌+◌, ◌*◌, Bool, ◌&&◌, Option, none, some, List, [], ◌∷◌, map, ◌==◌, if◌then◌else◌, Result, ok,
  ◌>>=◌,
}
use kurtar.Prelude.Int.{pos}
use kurtar.BusinessDays.{add_business_days, one_day_ms}
use kurtar.Status.Settlement.{calculated, recomputable_settlement_statuses}
use kurtar.Market.Rows.{find}
use kurtar.Settlement.Rate.{JsNumber, int}
use kurtar.Settlement.Batch.{InputLine, LineResult, compute_settlement}
use kurtar.Ledger.State.{SettlementBatch, Ledger, Surroundings, Error, has_status_in}
use kurtar.Ledger.Pass.{PendingSettlementLine, found_merchant, resolve_bag_fee_cents_for_merchant}
use kurtar.Ledger.Recompute.{settlement_result}

abbrev pub payout_due_business_days : ℕ
payout_due_business_days = 5

-- A reservation of a group, with the moment it was earned.
pub record EarnedLine : Type 0 where
  pub reservation_id : ℕ
  pub gross_cents : ℕ
  pub qty : JsNumber
  pub earned_at : ℕ

abbrev pub is_open_for : ℕ → ℕ → SettlementBatch → Bool
is_open_for merchant_id period_start b =
    (b.merchant_id == merchant_id)
    && (b.period_start == period_start)
    && has_status_in recomputable_settlement_statuses b

-- `findFirst`.
unfoldable pub find_first : (SettlementBatch → Bool) → List SettlementBatch → Option SettlementBatch
find_first test [] = none
find_first test (b ∷ bs) = if test b then some b else find_first test bs

abbrev pub new_batch : ℕ → ℕ → ℕ → List ℕ → SettlementBatch
new_batch id merchant_id day holidays = record {
  id = id;
  merchant_id = merchant_id;
  period_start = day * one_day_ms;
  period_end = day * one_day_ms + one_day_ms;
  due_at = add_business_days day payout_due_business_days holidays * one_day_ms;
  status = calculated;
  gross_cents = 0;
  bag_fee_cents = 0;
  bag_fee_vat_cents = 0;
  withholding_cents = 0;
  membership_offset_cents = 0;
  membership_offset_vat_cents = 0;
  refund_clawback_cents = 0;
  net_payout_cents = 0;
  carried_shortfall_cents = 0;
  carried_external_demand_cents = 0;
  inherited_external_demand_cents = 0;
  carried_demand_source_batch_id = none;
  shortfall_resolved_at = none;
  hold_reason = none;
  payout_attempted_at = none;
  psp_transfer_ref = none;
  sent_at = none;
  settled_at = none;
}

-- The transaction: the day's open batch, or a new one under the identifier that is given.
unfoldable pub open_batch : ℕ → ℕ → ℕ → List ℕ → Ledger → ℕ × Ledger
unfolding find_first add_business_days
open_batch new_id merchant_id day holidays db =
    elim (find_first (is_open_for merchant_id (day * one_day_ms)) db.batches) [
      | some b ↦ (b.id, db)
      | none ↦
          (new_id, record db { batches = new_batch new_id merchant_id day holidays ∷ db.batches })
    ]

abbrev pub earned_input : EarnedLine → InputLine
earned_input l = record {
  reservation_id = l.reservation_id;
  gross_cents = int (pos l.gross_cents);
  qty = l.qty;
}

abbrev pub earned_id : EarnedLine → ℕ
earned_id l = l.reservation_id

-- `earnedAtByReservation.get(id)!`; every result's reservation is one of the group.
abbrev pub earned_at? : Option EarnedLine → ℕ
earned_at? none = 0
earned_at? (some l) = l.earned_at

unfoldable pub pending_line : List EarnedLine → LineResult → PendingSettlementLine
unfolding find
pending_line lines r = record {
  reservation_id = r.reservation_id;
  redeemed_at = earned_at? (find earned_id r.reservation_id lines);
  gross_cents = r.gross_cents;
  bag_fee_cents = r.bag_fee_cents;
  bag_fee_vat_cents = r.bag_fee_vat_cents;
  withholding_cents = r.withholding_cents;
}

-- The lines that are computed, and inserted only by the recompute.
unfoldable pub pending_lines :
    Surroundings → ℕ → ℕ → List EarnedLine → Result Error (List PendingSettlementLine)
unfolding pending_line compute_settlement resolve_bag_fee_cents_for_merchant
pending_lines around merchant_id period_start [] = ok []
pending_lines around merchant_id period_start (l ∷ ls) = do
  merchant ← found_merchant (around.merchant merchant_id)
  bag_fee_cents ← resolve_bag_fee_cents_for_merchant merchant period_start around.pricings
  settlement ← settlement_result (
      compute_settlement (record {
        lines = map earned_input (l ∷ ls);
        bag_fee_cents = bag_fee_cents;
        membership_due_cents = int (pos 0);
        prior_clawback_cents = int (pos 0);
      }))
  ok (map (pending_line (l ∷ ls)) settlement.per_line)
