-- ===== src/Settlement/Batch.antt =====
-- backend/src/modules/settlements/settlement-math.ts: `computeLine` and `computeSettlement`.
pub mod Rounding
pub mod Accounting
use kurtar.Prelude.{ℕ, ◌+◌, ◌-◌, ◌*◌, min, Bool, List, [], ◌∷◌, map, ltb, sum, Result, ok, ◌>>=◌}
use kurtar.Prelude.Int.{pos_part, neg_part, sub_ℕ, sub_nat}
use kurtar.Settlement.Rate.{
  JsNumber, check_amount, check_positive, apply_rate_cents, vat_rate_numerator,
  vat_rate_denominator, withholding_rate_numerator, withholding_rate_denominator,
}

pub data Error : Type 0 where
  invalid_gross_cents invalid_qty : ℕ → Error
  invalid_bag_fee_cents invalid_membership_due_cents invalid_prior_clawback_cents : Error

pub record InputLine : Type 0 where
  pub reservation_id : ℕ
  pub gross_cents : JsNumber
  pub qty : JsNumber

pub record LineResult : Type 0 where
  pub reservation_id : ℕ
  pub gross_cents : ℕ
  pub bag_fee_cents : ℕ
  pub bag_fee_vat_cents : ℕ
  pub withholding_cents : ℕ

pub record Params : Type 0 where
  pub lines : List InputLine
  pub bag_fee_cents : JsNumber
  pub membership_due_cents : JsNumber
  pub prior_clawback_cents : JsNumber

pub record Settlement : Type 0 where
  pub gross_cents : ℕ
  pub bag_fee_cents : ℕ
  pub bag_fee_vat_cents : ℕ
  pub withholding_cents : ℕ
  pub membership_offset_cents : ℕ
  pub refund_clawback_cents : ℕ
  pub net_payout_cents : ℕ
  pub carried_shortfall_cents : ℕ
  pub held : Bool
  pub per_line : List LineResult

-- The part of `computeLine` behind its two checks. `Math.max(0, gross - fee - vat)` is the
-- subtraction that stops at 0.
unfoldable pub line_of : ℕ → ℕ → ℕ → ℕ → LineResult
line_of reservation_id gross_cents qty bag_fee_cents =
    let fee = bag_fee_cents * qty in
    let vat = apply_rate_cents fee vat_rate_numerator vat_rate_denominator in
    let withholding_base_cents = gross_cents - fee - vat in
    record {
      reservation_id = reservation_id;
      gross_cents = gross_cents;
      bag_fee_cents = fee;
      bag_fee_vat_cents = vat;
      withholding_cents =
          apply_rate_cents withholding_base_cents withholding_rate_numerator
            withholding_rate_denominator;
    }

unfoldable pub compute_line : ℕ → InputLine → Result Error LineResult
unfolding check_amount check_positive
compute_line bag_fee_cents line = do
  gross ← check_amount line.gross_cents (invalid_gross_cents line.reservation_id)
  qty ← check_positive line.qty (invalid_qty line.reservation_id)
  ok (line_of line.reservation_id gross qty bag_fee_cents)

-- `lines.map((line) => computeLine(line, bagFeeCents))`: the first line that throws ends it.
unfoldable pub compute_lines : ℕ → List InputLine → Result Error (List LineResult)
compute_lines bag_fee_cents [] = ok []
compute_lines bag_fee_cents (line ∷ lines) = do
  result ← compute_line bag_fee_cents line
  results ← compute_lines bag_fee_cents lines
  ok (result ∷ results)

-- The deduction chain: gross, fees and withholding, membership offset, clawback, net.
unfoldable pub batch_of : ℕ → ℕ → List LineResult → Settlement
unfolding sub_nat
batch_of membership_due_cents prior_clawback_cents per_line =
    let gross = sum (map (λ l. l.gross_cents) per_line) in
    let fee = sum (map (λ l. l.bag_fee_cents) per_line) in
    let vat = sum (map (λ l. l.bag_fee_vat_cents) per_line) in
    let withholding = sum (map (λ l. l.withholding_cents) per_line) in
    let before_membership = sub_ℕ gross (fee + vat + withholding) in
    let offset = min membership_due_cents (pos_part before_membership) in
    let before_clawback = sub_nat before_membership offset in
    let clawback = min prior_clawback_cents (pos_part before_clawback) in
    let carried = neg_part before_clawback + (prior_clawback_cents - pos_part before_clawback) in
    record {
      gross_cents = gross;
      bag_fee_cents = fee;
      bag_fee_vat_cents = vat;
      withholding_cents = withholding;
      membership_offset_cents = offset;
      refund_clawback_cents = clawback;
      net_payout_cents = pos_part (sub_nat before_clawback clawback);
      carried_shortfall_cents = carried;
      held = ltb 0 carried;
      per_line = per_line;
    }

unfoldable pub compute_settlement : Params → Result Error Settlement
unfolding check_amount
compute_settlement params = do
  bag_fee ← check_amount params.bag_fee_cents invalid_bag_fee_cents
  due ← check_amount params.membership_due_cents invalid_membership_due_cents
  prior ← check_amount params.prior_clawback_cents invalid_prior_clawback_cents
  per_line ← compute_lines bag_fee params.lines
  ok (batch_of due prior per_line)
