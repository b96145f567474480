-- ===== src/Prelude/Int.antt =====
-- Signed integers over the native numbers, under the library's names.
use kurtar.Prelude.{ℕ, suc, ◌+◌, ◌-◌, ◌≡◌, arith, leb, if◌then◌else◌}

-- `negsuc n` is -(n + 1).
pub data ℤ : Type 0 where
  pos : ℕ → ℤ
  negsuc : ℕ → ℤ

abbrev pub pos_part : ℤ → ℕ
pos_part (pos n) = n
pos_part (negsuc n) = 0

abbrev pub neg_part : ℤ → ℕ
neg_part (pos n) = 0
neg_part (negsuc n) = suc n

-- a - b, as an integer.
abbrev pub sub_ℕ : ℕ → ℕ → ℤ
sub_ℕ a b = if leb b a then pos (a - b) else negsuc (b - a - 1)

-- `x - n` for a signed x and a number n.
unfoldable pub sub_nat : ℤ → ℕ → ℤ
sub_nat x n = sub_ℕ (pos_part x) (neg_part x + n)

pub sub_ℕ_parts : (a b : ℕ) → pos_part (sub_ℕ a b) + b ≡ neg_part (sub_ℕ a b) + a
sub_ℕ_parts a b = ground arith

pub sub_nat_parts :
    (x : ℤ) (n : ℕ) → pos_part (sub_nat x n) + neg_part x + n ≡ neg_part (sub_nat x n) + pos_part x
unfolding sub_nat
sub_nat_parts x n = ground arith
