-- ===== src/Market/Rows.antt =====
-- A database table, as far as the services use it: rows under a unique column. A `findUnique` and a
-- guarded `updateMany` whose `where` names that column see one row at most.
pub mod Compose
pub mod Laws
use kurtar.Prelude.{
  ℕ, ◌+◌, Bool, true, false, Option, none, some, List, [], ◌∷◌, ◌==◌, if◌then◌else◌,
}

module _ {A : Type 0} (key : A → ℕ) where
  unfoldable pub find : ℕ → List A → Option A
  find k [] = none
  find k (x ∷ xs) = if key x == k then some x else find k xs

  -- The new table of `updateMany({ where: { <unique column>: k, <guard> }, data })`.
  unfoldable pub write : ℕ → (A → Bool) → (A → A) → List A → List A
  write k guard data_ [] = []
  write k guard data_ (x ∷ xs) =
      if key x == k then (if guard x then data_ x else x) ∷ xs else x ∷ write k guard data_ xs

  -- Its `count`, which is 0 or 1.
  unfoldable pub matched : ℕ → (A → Bool) → List A → Bool
  unfolding find
  matched k guard xs = elim (find k xs) [ none ↦ false | some x ↦ guard x ]

module _ {A : Type 0} where
  abbrev pub any : (A → Bool) → List A → Bool
  any test [] = false
  any test (x ∷ xs) = if test x then true else any test xs

  -- All the rows that a `findMany` selects, in the table's order.
  abbrev pub select : (A → Bool) → List A → List A
  select test [] = []
  select test (x ∷ xs) = if test x then x ∷ select test xs else select test xs

abbrev pub total {ℓ} : {A : Type ℓ} → (A → ℕ) → List A → ℕ
total w [] = 0
total w (x ∷ xs) = w x + total w xs
