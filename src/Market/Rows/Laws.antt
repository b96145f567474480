-- ===== src/Market/Rows/Laws.antt =====
-- What a guarded update does to a table: to the row that it names, to sums over the rows, and to
-- properties of all of them.
use kurtar.Prelude.{
  ℕ, ◌+◌, ◌≡◌, refl, ◌∙◌, Bool, true, false, Option, none, some, List, [], ◌∷◌, ◌==◌, if◌then◌else◌,
  All, arith, ==_iff, Bool-cases, Option-cases, inl, inr,
}
use kurtar.Market.Rows.{find, write, matched, select, total}

module _ {A : Type 0} where
  -- The row after the update, if its guard holds of it.
  abbrev pub updated : (A → Bool) → (A → A) → A → A
  updated guard f x = if guard x then f x else x

  abbrev pub updated? : (A → Bool) → (A → A) → Option A → Option A
  updated? guard f none = none
  updated? guard f (some x) = some (updated guard f x)

module _ {A : Type 0} (key : A → ℕ) where
  pub find-key : (k : ℕ) (xs : List A) (x : A) → find key k xs ≡ some x → key x ≡ k
  unfolding find
  find-key k [] x e = cc
  find-key k (y ∷ xs) x e = ground (arith, find-key k xs x)

  pub find-All :
      (P : A → Type 0) (k : ℕ) (xs : List A) (x : A) → All P xs → find key k xs ≡ some x → P x
  unfolding find
  find-All P k [] x a e = cc
  find-All P k (y ∷ xs) x a e = elim (Bool-cases (key y == k)) [
    | inl h ↦ let same : y ≡ x = ground arith in rw same at a.0
    | inr h ↦ find-All P k xs x a.1 (ground arith)
  ]

  pub find-write :
      (j k : ℕ) (g : A → Bool) (f : A → A) (xs : List A)
      → ((x : A) → key (f x) ≡ key x)
      → find key j (write key k g f xs)
        ≡ (if k == j then updated? g f (find key j xs) else find key j xs)
  unfolding find write
  find-write j k g f [] keep = ground arith
  find-write j k g f (x ∷ xs) keep = ground (arith, keep x, find-write j k g f xs keep)

  -- A row found after the update is one found before it, updated if it is the named one.
  pub write-found :
      (j k : ℕ) (g : A → Bool) (f : A → A) (xs : List A) (y : A)
      → ((x : A) → key (f x) ≡ key x)
      → find key j (write key k g f xs) ≡ some y
      → (x : A) × (find key j xs ≡ some x) × (y ≡ (if k == j then updated g f x else x))
  write-found j k g f xs y keep e = elim (Option-cases (find key j xs)) [
    | inl n ↦ let after = find-write j k g f xs keep in ground (arith, after)
    | inr (x, m) ↦ (x, m, let after = find-write j k g f xs keep in ground (arith, after))
  ]

  pub write-absent :
      (k : ℕ) (g : A → Bool) (f : A → A) (xs : List A)
      → find key k xs ≡ none
      → write key k g f xs ≡ xs
  unfolding find write
  write-absent k g f [] e = refl
  write-absent k g f (x ∷ xs) e = ground (arith, write-absent k g f xs)

  pub total-write :
      (w : A → ℕ) (k : ℕ) (g : A → Bool) (f : A → A) (xs : List A) (x : A)
      → find key k xs ≡ some x
      → total w (write key k g f xs) + w x ≡ total w xs + w (updated g f x)
  unfolding find write
  total-write w k g f [] x e = cc
  total-write w k g f (y ∷ xs) x e = ground (arith, total-write w k g f xs x)

  pub matched-found :
      (k : ℕ) (g : A → Bool) (xs : List A)
      → matched key k g xs ≡ true
      → (x : A) × (find key k xs ≡ some x) × (g x ≡ true)
  unfolding matched
  matched-found k g xs m = elim (Option-cases (find key k xs)) [
    | inl e ↦ let impossible : false ≡ true = rw (e, matched) at m in cc
    | inr (x, e) ↦ (x, e, rw (e, matched) at m)
  ]

  pub found-matched :
      (k : ℕ) (g : A → Bool) (xs : List A) (x : A)
      → find key k xs ≡ some x
      → matched key k g xs ≡ g x
  unfolding matched
  found-matched k g xs x e = rw (e, matched)

  -- A weight that the update keeps sums to the same.
  pub total-write_neutral :
      (w : A → ℕ) (k : ℕ) (g : A → Bool) (f : A → A) (xs : List A)
      → ((x : A) → g x ≡ true → w (f x) ≡ w x)
      → total w (write key k g f xs) ≡ total w xs
  unfolding write
  total-write_neutral w k g f [] keep = refl
  total-write_neutral w k g f (x ∷ xs) keep =
      ground (arith, keep x, total-write_neutral w k g f xs keep)

  pub All-write :
      (P : A → Type 0) (k : ℕ) (g : A → Bool) (f : A → A) (xs : List A)
      → ((x : A) → key x ≡ k → g x ≡ true → P x → P (f x))
      → All P xs
      → All P (write key k g f xs)
  unfolding write
  All-write P k g f [] step a = tt
  All-write P k g f (x ∷ xs) step a = elim (Bool-cases (key x == k)) [
    | inl h ↦ elim (Bool-cases (g x)) [
      | inl t ↦ rw (h, t) (step x ((==_iff _ _).0 h) t a.0, a.1)
      | inr t ↦ rw (h, t) a
    ]
    | inr h ↦ rw h (a.0, All-write P k g f xs step a.1)
  ]

  -- The column is unique.
  abbrev pub IsUnique : List A → Type 0
  IsUnique [] = Unit
  IsUnique (x ∷ xs) = (find key (key x) xs ≡ none) × IsUnique xs

  pub write-IsUnique :
      (k : ℕ) (g : A → Bool) (f : A → A) (xs : List A)
      → ((x : A) → key (f x) ≡ key x)
      → IsUnique xs
      → IsUnique (write key k g f xs)
  unfolding write
  write-IsUnique k g f [] keep u = tt
  write-IsUnique k g f (x ∷ xs) keep u = elim (Bool-cases (key x == k)) [
    | inl h ↦ elim (Bool-cases (g x)) [
      | inl t ↦ rw (h, t) (rw (keep x) u.0, u.1)
      | inr t ↦ rw (h, t) u
    ]
    | inr h ↦
        rw h
          (find-write (key x) k g f xs keep ∙ ground (arith, u.0), write-IsUnique k g f xs keep u.1)
  ]

  -- A selected row is the row that its key finds.
  abbrev pub IsFound : (A → Bool) → List A → A → Type 0
  IsFound test xs x = (find key (key x) xs ≡ some x) × (test x ≡ true)

  All-IsFound-cons :
      (test : A → Bool) (y : A) (xs l : List A)
      → find key (key y) xs ≡ none
      → All (IsFound test xs) l
      → All (IsFound test (y ∷ xs)) l
  unfolding find
  All-IsFound-cons test y xs [] n a = tt
  All-IsFound-cons test y xs (x ∷ l) n a =
      ((ground (arith, a.0.0), a.0.1), All-IsFound-cons test y xs l n a.1)

  pub select-IsFound :
      (test : A → Bool) (xs : List A) → IsUnique xs → All (IsFound test xs) (select test xs)
  unfolding find
  select-IsFound test [] u = tt
  select-IsFound test (x ∷ xs) u =
      let rest = All-IsFound-cons test x xs (select test xs) u.0 (select-IsFound test xs u.1) in
      elim (Bool-cases (test x)) [ inl t ↦ rw t ((ground arith, t), rest) | inr t ↦ rw t rest ]
