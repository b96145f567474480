-- ===== src/Settlement/Batch/Accounting.antt =====
-- settlement-math.ts: what `computeSettlement` promises of a batch.
use kurtar.Prelude.{
  ℕ, ◌+◌, ◌-◌, ◌<◌, ◌≡◌, refl, ◌↔◌, ◌⊎◌, min, true, false, List, [], ◌∷◌, map, arith, All, ok,
  >>=-eq-ok,
}
use kurtar.Settlement.Rate.{
  check_amount, check_positive, IsAmount, IsPositive, amount, check_amount-ok,
  check_amount-IsAmount, check_positive-ok, check_positive-IsPositive,
}
use kurtar.Settlement.Batch.{
  Settlement, LineResult, InputLine, Params, batch_of, line_of, compute_line, compute_lines,
  compute_settlement,
}

-- What the function accepts: whole amounts that are not negative, and at least one bag a line.
abbrev pub IsValidLine : InputLine → Type 0
IsValidLine line = IsAmount line.gross_cents × IsPositive line.qty

pub record IsValid (p : Params) : Type 0 where
  pub fee : IsAmount p.bag_fee_cents
  pub due : IsAmount p.membership_due_cents
  pub prior : IsAmount p.prior_clawback_cents
  pub lines : All IsValidLine p.lines

abbrev pub line_result : ℕ → InputLine → LineResult
line_result fee line = line_of line.reservation_id (amount line.gross_cents) (amount line.qty) fee

compute_lines-ok :
    (fee : ℕ) (lines : List InputLine)
    → All IsValidLine lines
    → compute_lines fee lines ≡ ok (map (line_result fee) lines)
unfolding compute_lines compute_line
compute_lines-ok fee [] v = refl
compute_lines-ok fee (line ∷ lines) v = rw (
  check_amount-ok line.gross_cents _ v.0.0,
  check_positive-ok line.qty _ v.0.1,
  compute_lines-ok fee lines v.1,
)

pub compute_settlement-ok :
    (p : Params)
    → IsValid p
    → compute_settlement p
      ≡ ok (
          batch_of
            (amount p.membership_due_cents)
            (amount p.prior_clawback_cents)
            (map (line_result (amount p.bag_fee_cents)) p.lines))
unfolding compute_settlement
compute_settlement-ok p v = rw (
  check_amount-ok p.bag_fee_cents _ v.fee,
  check_amount-ok p.membership_due_cents _ v.due,
  check_amount-ok p.prior_clawback_cents _ v.prior,
  compute_lines-ok (amount p.bag_fee_cents) p.lines v.lines,
)

compute_line-IsValidLine :
    (fee : ℕ) (line : InputLine) {r : LineResult} → compute_line fee line ≡ ok r → IsValidLine line
unfolding compute_line
compute_line-IsValidLine fee line e =
    let (gross, e1, e2) = >>=-eq-ok (check_amount line.gross_cents _) _ e in
    let (qty, e3, _) = >>=-eq-ok (check_positive line.qty _) _ e2 in
    (check_amount-IsAmount line.gross_cents _ e1, check_positive-IsPositive line.qty _ e3)

compute_lines-IsValid :
    (fee : ℕ) (lines : List InputLine) (rs : List LineResult)
    → compute_lines fee lines ≡ ok rs
    → All IsValidLine lines
unfolding compute_lines compute_line
compute_lines-IsValid fee [] rs e = tt
compute_lines-IsValid fee (line ∷ lines) rs e =
    let (result, e1, e2) = >>=-eq-ok (compute_line fee line) _ e in
    let (results, e3, _) = >>=-eq-ok (compute_lines fee lines) _ e2 in
    (compute_line-IsValidLine fee line e1, compute_lines-IsValid fee lines results e3)

compute_settlement-IsValid : (p : Params) {r : Settlement} → compute_settlement p ≡ ok r → IsValid p
unfolding compute_settlement
compute_settlement-IsValid p e =
    let (fee, e1, f1) = >>=-eq-ok (check_amount p.bag_fee_cents _) _ e in
    let (due, e2, f2) = >>=-eq-ok (check_amount p.membership_due_cents _) _ f1 in
    let (prior, e3, f3) = >>=-eq-ok (check_amount p.prior_clawback_cents _) _ f2 in
    let (per_line, e4, _) = >>=-eq-ok (compute_lines fee p.lines) _ f3 in
    record {
      fee = check_amount-IsAmount p.bag_fee_cents _ e1;
      due = check_amount-IsAmount p.membership_due_cents _ e2;
      prior = check_amount-IsAmount p.prior_clawback_cents _ e3;
      lines = compute_lines-IsValid fee p.lines per_line e4;
    }

-- `computeSettlement` returns exactly when the three amounts are whole and not negative, every
-- line's gross is so too, and every line has a positive whole number of bags; else it throws.
pub compute_settlement_iff :
    (p : Params) → ((r : Settlement) × (compute_settlement p ≡ ok r)) ↔ IsValid p
compute_settlement_iff p =
    (λ h. compute_settlement-IsValid p h.1, λ v. (_, compute_settlement-ok p v))

batch_of-accounted :
    (due prior : ℕ) (ls : List LineResult)
    → let r = batch_of due prior ls in
      r.gross_cents + r.carried_shortfall_cents
      ≡ r.bag_fee_cents + r.bag_fee_vat_cents + r.withholding_cents + r.membership_offset_cents
        + prior + r.net_payout_cents
unfolding batch_of
batch_of-accounted due prior ls = ground arith

-- Every kuruş is accounted for: on every valid input the function returns, and gross plus the
-- shortfall carried forward equals fees, VAT, withholding, membership offset, the whole clawback
-- demand and the net payout together.
pub compute_settlement-accounted :
    (p : Params)
    → IsValid p
    → (r : Settlement) × (compute_settlement p ≡ ok r)
      × (r.gross_cents + r.carried_shortfall_cents
          ≡ r.bag_fee_cents
            + r.bag_fee_vat_cents
            + r.withholding_cents
            + r.membership_offset_cents
            + amount p.prior_clawback_cents
            + r.net_payout_cents)
compute_settlement-accounted p v =
    (_, compute_settlement-ok p v, batch_of-accounted _ (amount p.prior_clawback_cents) _)

pub batch_of-chain :
    (due prior : ℕ) (ls : List LineResult)
    → let r = batch_of due prior ls in
      let left = r.gross_cents - (r.bag_fee_cents + r.bag_fee_vat_cents + r.withholding_cents) in
      (r.membership_offset_cents ≡ min due left)
      × (r.refund_clawback_cents ≡ min prior (left - r.membership_offset_cents))
      × (r.net_payout_cents ≡ left - r.membership_offset_cents - r.refund_clawback_cents)
      × ((r.held ≡ true) ↔ (0 < r.carried_shortfall_cents))
      × ((r.net_payout_cents ≡ 0)
          ⊎ ((r.held ≡ false)
              × (r.membership_offset_cents ≡ due)
              × (r.refund_clawback_cents ≡ prior)))
unfolding batch_of
batch_of-chain due prior ls = ground arith

-- The deduction order. With what is left of gross after fees, VAT and withholding (0 if these
-- exceed it), the membership offset takes as much as is due and left, then the clawback as much as
-- is demanded and left, and the net payout is the rest. A batch is held exactly when a shortfall
-- is carried, and a merchant is paid anything only if the membership due and the clawback demand
-- were taken in full and the batch is not held.
pub compute_settlement-chain :
    (p : Params)
    → IsValid p
    → (r : Settlement) × (compute_settlement p ≡ ok r)
      × (let left = r.gross_cents - (r.bag_fee_cents + r.bag_fee_vat_cents + r.withholding_cents) in
          (r.membership_offset_cents ≡ min (amount p.membership_due_cents) left)
          × (r.refund_clawback_cents
              ≡ min (amount p.prior_clawback_cents) (left - r.membership_offset_cents))
          × (r.net_payout_cents ≡ left - r.membership_offset_cents - r.refund_clawback_cents)
          × ((r.held ≡ true) ↔ (0 < r.carried_shortfall_cents))
          × ((r.net_payout_cents ≡ 0)
              ⊎ ((r.held ≡ false)
                  × (r.membership_offset_cents ≡ amount p.membership_due_cents)
                  × (r.refund_clawback_cents ≡ amount p.prior_clawback_cents))))
compute_settlement-chain p v =
    (_, compute_settlement-ok p v, batch_of-chain _ (amount p.prior_clawback_cents) _)
