-- ===== src/Ledger/Reconciled/Batches.antt =====
-- What the write of a batch's row, and of its claim, keeps of the other rows.
use kurtar.Prelude.{
  ℕ, ◌≡◌, refl, sym, ◌∙◌, true, false, Option, none, some, List, [], ◌∷◌, arith, ltb, ◌==◌, ==_iff,
  if◌then◌else◌, All, Bool-cases, Option-cases, inl, inr,
}
use kurtar.Market.Rows.{find, write}
use kurtar.Market.Rows.Laws.{IsUnique, find-write}
use kurtar.Ledger.State.{
  SettlementBatch, CarriedDemandClaim, batch_id_of, has_status_in, paid_statuses,
}
use kurtar.Ledger.Carried.{claimed_by, delete_own_claim, record_claim}
use kurtar.Ledger.Reconciled.{is_payable?, is_backed_by, HasClaimant}
use kurtar.Ledger.Reconciled.Backed.{All-map, All-zip}

module _ {A : Type 0} (key : A → ℕ) where
  find-none-All : (k : ℕ) (xs : List A) → find key k xs ≡ none → All (λ x. (key x == k) ≡ false) xs
  unfolding find
  find-none-All k [] e = tt
  find-none-All k (x ∷ xs) e = elim (Bool-cases (key x == k)) [
    | inl h ↦ let impossible : some x ≡ none = rw h at e in cc
    | inr h ↦ (h, find-none-All k xs (rw h at e))
  ]

  -- A property of the rows, after the row of a unique key was rewritten.
  pub write-All :
      (P Q : A → Type 0) (k : ℕ) (f : A → A) (xs : List A)
      → IsUnique key xs
      → All P xs
      → ((x : A) → (key x == k) ≡ false → P x → Q x)
      → ((x : A) → find key k xs ≡ some x → Q (f x))
      → All Q (write key k (λ x. true) f xs)
  unfolding write find
  write-All P Q k f [] u a other one = tt
  write-All P Q k f (x ∷ xs) u a other one = elim (Bool-cases (key x == k)) [
    | inl h ↦
        let same : key x ≡ k = (==_iff _ _).0 h in
        let absent = find-none-All k xs (rw same at u.0) in
        rw h (
          one x (rw h refl),
          All-map (λ y. P y × ((key y == k) ≡ false)) Q xs (λ y both. other y both.1 both.0)
              (All-zip P (λ y. (key y == k) ≡ false) xs a.1 absent),
        )
    | inr h ↦ rw h (other x h a.0, write-All P Q k f xs u.1 a.1 other (λ y e. one y (rw h e)))
  ]

module _ (b : SettlementBatch) (batches : List SettlementBatch)
    (f : SettlementBatch → SettlementBatch) (here : find batch_id_of b.id batches ≡ some b)
    (keeps_id : (x : SettlementBatch) → (f x).id ≡ x.id)
    (keeps_merchant : (x : SettlementBatch) → (f x).merchant_id ≡ x.merchant_id) where
  abbrev rewritten : List SettlementBatch
  rewritten = write batch_id_of b.id (λ x. true) f batches

  find-rewritten :
      (k : ℕ) (x : SettlementBatch)
      → find batch_id_of k batches ≡ some x
      → find batch_id_of k rewritten ≡ some (if b.id == k then f x else x)
  find-rewritten k x e =
      let after = find-write batch_id_of k b.id (λ y. true) f batches keeps_id in
      elim (Bool-cases (b.id == k)) [
        | inl t ↦ rw (after, t, e) refl
        | inr t ↦ rw (after, t, e) refl
      ]

  pub write-HasClaimant : (c : CarriedDemandClaim) → HasClaimant batches c → HasClaimant rewritten c
  write-HasClaimant c h = elim (Option-cases (find batch_id_of c.claimant_batch_id batches)) [
    | inl n ↦ let impossible : true ≡ false = rw n at h in cc
    | inr (x, n) ↦ rw (find-rewritten c.claimant_batch_id x n) refl
  ]

  same_merchant :
      (k : ℕ) (x : SettlementBatch) → (if b.id == k then f x else x).merchant_id ≡ x.merchant_id
  same_merchant k x = elim (Bool-cases (b.id == k)) [
    | inl t ↦ rw t (keeps_merchant x)
    | inr t ↦ rw t refl
  ]

  is_payable?-merchant :
      (w v v2 : SettlementBatch)
      → v2.merchant_id ≡ v.merchant_id
      → is_payable? (some w) (some v) ≡ true
      → is_payable? (some w) (some v2) ≡ true
  is_payable?-merchant w v v2 e h = rw e h

  -- A batch that was not paid out backs no allocation, so its row can change.
  pub write-is_backed_by :
      (owner : Option ℕ) (c : ℕ)
      → has_status_in paid_statuses b ≡ false
      → is_backed_by batches owner c ≡ true
      → is_backed_by rewritten owner c ≡ true
  write-is_backed_by none c unpaid h = h
  write-is_backed_by (some o) c unpaid h = elim (Option-cases (find batch_id_of o batches)) [
    | inl n ↦ let impossible : false ≡ true = rw n at h in cc
    | inr (w, n) ↦ elim (Option-cases (find batch_id_of c batches)) [
      | inl m ↦ let impossible : false ≡ true = rw (n, m) at h in cc
      | inr (v, m) ↦
          let payable : is_payable? (some w) (some v) ≡ true = rw (n, m) at h in
          elim (Bool-cases (b.id == o)) [
            | inl t ↦
                let same : b.id ≡ o = (==_iff _ _).0 t in
                let it : some b ≡ some w = sym here ∙ rw (← same) at n in
                let one : b ≡ w = cc in
                let impossible : false ≡ true = rw (← one, unpaid) at payable in cc
            | inr t ↦
                let first : find batch_id_of o rewritten ≡ some w =
                  rw t at (find-rewritten o w n) in
                rw (first, find-rewritten c v m)
                  (is_payable?-merchant w v (if b.id == c then f v else v) (same_merchant c v)
                    payable)
          ]
    ]
  ]

-- The claims after a batch has deleted its own.
claimed_by-delete_own_claim :
    (b c : ℕ) (claims : List CarriedDemandClaim)
    → claimed_by c (delete_own_claim b claims) ≡ (if b == c then 0 else claimed_by c claims)
unfolding claimed_by delete_own_claim find
claimed_by-delete_own_claim b c [] = ground arith
claimed_by-delete_own_claim b c (x ∷ claims) =
    let rest = claimed_by-delete_own_claim b c claims in ground (arith, rest)

-- Its new claim is the amount, and the other batches' claims stay.
pub claimed_by-record_claim :
    (b c : ℕ) (source : Option ℕ) (amount : ℕ) (claims : List CarriedDemandClaim)
    → ((source ≡ none) → amount ≡ 0)
    → claimed_by c (record_claim b source amount (delete_own_claim b claims))
      ≡ (if b == c then amount else claimed_by c claims)
unfolding record_claim claimed_by find
claimed_by-record_claim b c none amount claims zero_amount =
    let nothing = zero_amount refl in claimed_by-delete_own_claim b c claims ∙ ground arith
claimed_by-record_claim b c (some s) amount claims zero_amount =
    let rest = claimed_by-delete_own_claim b c claims in ground (arith, rest)

pub All-record_claim :
    (P : CarriedDemandClaim → Type 0) (b : ℕ) (source : Option ℕ) (amount : ℕ)
    (claims : List CarriedDemandClaim)
    → ((s : ℕ) → P (record { claimant_batch_id = b; source_batch_id = s; amount_cents = amount }))
    → All P claims
    → All P (record_claim b source amount claims)
unfolding record_claim
All-record_claim P b none amount claims one a = a
All-record_claim P b (some s) amount claims one a = elim (Bool-cases (ltb 0 amount)) [
  | inl t ↦ rw t (one s, a)
  | inr t ↦ rw t a
]
