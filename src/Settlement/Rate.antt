-- ===== src/Settlement/Rate.antt =====
-- backend/src/modules/settlements/settlement-math.ts: the rounding rule and the two rates, and the
-- validation of numbers that its functions share.
use kurtar.Prelude.{ℕ, zero, suc, ◌+◌, ◌*◌, ◌/◌, ◌≤◌, ◌<◌, ◌≡◌, refl, arith, Result, ok, err}
use kurtar.Prelude.Int.{ℤ, pos, negsuc}

-- A JavaScript number as `Number.isInteger` tells them apart: `non_integer` stands for fractions,
-- infinities and NaN, which every function here refuses.
pub data JsNumber : Type 0 where
  int : ℤ → JsNumber
  non_integer : JsNumber

-- `if (!Number.isInteger(x) || x < 0) throw e`; the amount is a natural number from there on.
unfoldable pub check_amount {ℓ} : {E : Type ℓ} → JsNumber → E → Result E ℕ
check_amount (int (pos n)) e = ok n
check_amount (int (negsuc n)) e = err e
check_amount non_integer e = err e

-- `if (!Number.isInteger(x) || x <= 0) throw e`.
unfoldable pub check_positive {ℓ} : {E : Type ℓ} → JsNumber → E → Result E ℕ
check_positive (int (pos zero)) e = err e
check_positive (int (pos (suc n))) e = ok (suc n)
check_positive (int (negsuc n)) e = err e
check_positive non_integer e = err e

abbrev pub vat_rate_numerator : ℕ
vat_rate_numerator = 20

abbrev pub vat_rate_denominator : ℕ
vat_rate_denominator = 100

abbrev pub withholding_rate_numerator : ℕ
withholding_rate_numerator = 1

abbrev pub withholding_rate_denominator : ℕ
withholding_rate_denominator = 100

-- `Math.round` of the exact ratio a / b, for b > 0: the floor of a / b + 1/2.
unfoldable pub round_kurus : ℕ → ℕ → ℕ
round_kurus a b = (2 * a + b) / (2 * b)

unfoldable pub apply_rate_cents : ℕ → ℕ → ℕ → ℕ
apply_rate_cents base_cents numerator denominator = round_kurus (base_cents * numerator) denominator

abbrev pub IsAmount : JsNumber → Type 0
IsAmount (int (pos n)) = Unit
IsAmount _ = ⊥

abbrev pub IsPositive : JsNumber → Type 0
IsPositive (int (pos (suc n))) = Unit
IsPositive _ = ⊥

-- The number that an accepted value stands for.
abbrev pub amount : JsNumber → ℕ
amount (int (pos n)) = n
amount _ = 0

pub check_amount-ok {ℓ} :
    {E : Type ℓ} (x : JsNumber) (e : E) → IsAmount x → check_amount x e ≡ ok (amount x)
unfolding check_amount
check_amount-ok (int (pos n)) e h = refl
check_amount-ok (int (negsuc n)) e h = absurd h
check_amount-ok non_integer e h = absurd h

pub check_positive-ok {ℓ} :
    {E : Type ℓ} (x : JsNumber) (e : E) → IsPositive x → check_positive x e ≡ ok (amount x)
unfolding check_positive
check_positive-ok (int (pos zero)) e h = absurd h
check_positive-ok (int (pos (suc n))) e h = refl
check_positive-ok (int (negsuc n)) e h = absurd h
check_positive-ok non_integer e h = absurd h

pub check_amount-IsAmount {ℓ} :
    {E : Type ℓ} (x : JsNumber) (e : E) {n : ℕ} → check_amount x e ≡ ok n → IsAmount x
unfolding check_amount
check_amount-IsAmount (int (pos n)) e h = tt
check_amount-IsAmount (int (negsuc n)) e h = cc
check_amount-IsAmount non_integer e h = cc

pub check_positive-IsPositive {ℓ} :
    {E : Type ℓ} (x : JsNumber) (e : E) {n : ℕ} → check_positive x e ≡ ok n → IsPositive x
unfolding check_positive
check_positive-IsPositive (int (pos zero)) e h = cc
check_positive-IsPositive (int (pos (suc n))) e h = tt
check_positive-IsPositive (int (negsuc n)) e h = cc
check_positive-IsPositive non_integer e h = cc

-- Nearest kuruş, ties up.
pub round_kurus_nearest :
    (a b : ℕ)
    → 0 < b
    → (2 * b * round_kurus a b ≤ 2 * a + b) × (2 * a + b < 2 * b * round_kurus a b + 2 * b)
unfolding round_kurus
round_kurus_nearest a b h = (grind arith, grind arith)
