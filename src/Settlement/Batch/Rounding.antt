-- ===== src/Settlement/Batch/Rounding.antt =====
-- settlement-math.ts: rounding per line, and the totals of a batch against its lines.
use kurtar.Prelude.{ℕ, ◌+◌, ◌-◌, ◌*◌, ◌≤◌, ◌≡◌, List, [], ◌∷◌, map, arith, sum, length, ok}
use kurtar.Settlement.Rate.{amount, apply_rate_cents, round_kurus_nearest}
use kurtar.Settlement.Batch.{
  Settlement, LineResult, InputLine, Params, batch_of, line_of, compute_settlement,
}
use kurtar.Settlement.Batch.Accounting.{IsValid, line_result, compute_settlement-ok}

-- What withholding is taken on: the line's gross less its fee and the VAT on it, 0 at least.
abbrev pub withholding_base : LineResult → ℕ
withholding_base l = l.gross_cents - l.bag_fee_cents - l.bag_fee_vat_cents

-- `rounded` is the nearest whole number to `hundredths` / 100.
abbrev pub IsNearest : ℕ → ℕ → Type 0
IsNearest hundredths rounded = (100 * rounded ≤ hundredths + 50) × (hundredths ≤ 100 * rounded + 50)

apply_rate_cents-IsNearest : (base n : ℕ) → IsNearest (base * n) (apply_rate_cents base n 100)
unfolding apply_rate_cents
apply_rate_cents-IsNearest base n =
    let (low, high) = round_kurus_nearest (base * n) 100 (omega arith) in (omega arith, omega arith)

line_of-IsNearest :
    (id gross qty fee : ℕ)
    → let l = line_of id gross qty fee in
      IsNearest (20 * l.bag_fee_cents) l.bag_fee_vat_cents
      × IsNearest (withholding_base l) l.withholding_cents
unfolding line_of
line_of-IsNearest id gross qty fee =
    let l = line_of id gross qty fee in
    let (a, b) = apply_rate_cents-IsNearest l.bag_fee_cents 20 in
    let (c, d) = apply_rate_cents-IsNearest (withholding_base l) 1 in
    ((omega arith, omega arith), (omega arith, omega arith))

-- Rounding each line moves a total by half a kuruş a line at most.
abbrev pub IsWithin : ℕ → ℕ → ℕ → Type 0
IsWithin n hundredths rounded =
    (100 * rounded ≤ hundredths + 50 * n) × (hundredths ≤ 100 * rounded + 50 * n)

drift :
    (fee : ℕ) (lines : List InputLine)
    → let ls = map (line_result fee) lines in
      IsWithin
        (length lines)
        (20 * sum (map (λ l. l.bag_fee_cents) ls))
        (sum (map (λ l. l.bag_fee_vat_cents) ls))
      × IsWithin
          (length lines)
          (sum (map withholding_base ls))
          (sum (map (λ l. l.withholding_cents) ls))
drift fee [] = omega arith
drift fee (line ∷ lines) =
    let ((a, b), (c, d)) =
      line_of-IsNearest line.reservation_id (amount line.gross_cents) (amount line.qty) fee in
    let ((p, q), (r, s)) = drift fee lines in
    ((omega arith, omega arith), (omega arith, omega arith))

total_fee :
    (fee : ℕ) (lines : List InputLine)
    → (sum (map (λ l. l.gross_cents) (map (line_result fee) lines))
        ≡ sum (map (λ l. amount l.gross_cents) lines))
      × (sum (map (λ l. l.bag_fee_cents) (map (line_result fee) lines))
          ≡ fee * sum (map (λ l. amount l.qty) lines))
unfolding line_of
total_fee fee [] = omega arith
total_fee fee (line ∷ lines) = omega (arith, total_fee fee lines)

-- On every valid input the batch's gross is the sum of the lines' grosses and its bag fee is the
-- fee times all the bags, exactly; its VAT is 20 % of the fee and its withholding 1 % of the lines'
-- earnings, each to within half a kuruş for each line.
pub compute_settlement-rounding :
    (p : Params)
    → IsValid p
    → (r : Settlement) × (compute_settlement p ≡ ok r)
      × (r.gross_cents ≡ sum (map (λ l. amount l.gross_cents) p.lines))
      × (r.bag_fee_cents ≡ amount p.bag_fee_cents * sum (map (λ l. amount l.qty) p.lines))
      × IsWithin (length p.lines) (20 * r.bag_fee_cents) r.bag_fee_vat_cents
      × IsWithin (length p.lines) (sum (map withholding_base r.per_line)) r.withholding_cents
unfolding batch_of
compute_settlement-rounding p v =
    let fee = amount p.bag_fee_cents in
    let (g, f) = total_fee fee p.lines in
    let (vat, withholding) = drift fee p.lines in
    (_, compute_settlement-ok p v, g, f, vat, withholding)
