-- ===== src/Market/Rows/Compose.antt =====
-- Guarded updates of one row, one after the other, against the row that they find.
use kurtar.Prelude.{
  ℕ, ◌≡◌, refl, ◌∙◌, Bool, true, Option, some, List, [], ◌∷◌, ◌==◌, arith, ==_refl, Bool-cases, inl,
  inr,
}
use kurtar.Market.Rows.{find, write, matched}
use kurtar.Market.Rows.Laws.{updated, find-write, found-matched}

module _ {A : Type 0} (key : A → ℕ) (k : ℕ) where
  -- The row itself after an update.
  pub find-write_same :
      (g : A → Bool) (f : A → A) (xs : List A) (x : A)
      → ((y : A) → key (f y) ≡ key y)
      → find key k xs ≡ some x
      → find key k (write key k g f xs) ≡ some (updated g f x)
  find-write_same g f xs x keep e = find-write key k k g f xs keep ∙ rw (==_refl k, e)

  -- The count of a second update.
  pub matched-write :
      (g₁ g₂ : A → Bool) (f₁ : A → A) (xs : List A) (x : A)
      → ((y : A) → key (f₁ y) ≡ key y)
      → find key k xs ≡ some x
      → matched key k g₂ (write key k g₁ f₁ xs) ≡ g₂ (updated g₁ f₁ x)
  matched-write g₁ g₂ f₁ xs x keep e =
      found-matched key k g₂ (write key k g₁ f₁ xs) _ (find-write_same g₁ f₁ xs x keep e)

  -- Two updates are one that does both to the row.
  pub write-write :
      (g₁ g₂ : A → Bool) (f₁ f₂ h : A → A) (xs : List A) (x : A)
      → ((y : A) → key (f₁ y) ≡ key y)
      → find key k xs ≡ some x
      → updated g₂ f₂ (updated g₁ f₁ x) ≡ h x
      → write key k g₂ f₂ (write key k g₁ f₁ xs) ≡ write key k (λ _. true) h xs
  unfolding find write
  write-write g₁ g₂ f₁ f₂ h [] x keep e same = refl
  write-write g₁ g₂ f₁ f₂ h (y ∷ xs) x keep e same = elim (Bool-cases (key y == k)) [
    | inl t ↦
        let found : ◌≡◌ {A = Option A} (some y) (some x) = rw t at e in
        let row : y ≡ x = cc in
        let t' : (key (updated g₁ f₁ y) == k) ≡ true = ground (arith, keep y) in
        rw (t, t') (rw (row, same))
    | inr t ↦ rw (t, t) (rw (write-write g₁ g₂ f₁ f₂ h xs x keep (rw t at e) same))
  ]

  -- One update, by what it does to the row.
  pub write-one :
      (g : A → Bool) (f h : A → A) (xs : List A) (x : A)
      → find key k xs ≡ some x
      → updated g f x ≡ h x
      → write key k g f xs ≡ write key k (λ _. true) h xs
  unfolding find write
  write-one g f h [] x e same = refl
  write-one g f h (y ∷ xs) x e same = elim (Bool-cases (key y == k)) [
    | inl t ↦
        let found : ◌≡◌ {A = Option A} (some y) (some x) = rw t at e in
        let row : y ≡ x = cc in rw t (rw (row, same))
    | inr t ↦ rw t (rw (write-one g f h xs x (rw t at e) same))
  ]
