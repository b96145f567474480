-- ===== src/Ledger/Reconciled/Backed.antt =====
-- Allocations against a line: which lines have none, and what a locked line's batch is.
use kurtar.Prelude.{
  ℕ, ◌≡◌, refl, ap, Bool, true, false, none, some, List, [], ◌∷◌, arith, ◌==◌, ==_iff, All,
  Bool-cases, Option-cases, inl, inr,
}
use kurtar.Status.Settlement.{
  SettlementStatus, machine, pending, calculated, approved, held, sent, settled, failed,
  recomputable_settlement_statuses,
}
use kurtar.Status.{includes}
use kurtar.Market.Rows.{find, any, select}
use kurtar.Market.Rows.Laws.{IsUnique, IsFound, select-IsFound}
use kurtar.Ledger.State.{
  SettlementBatch, SettlementLine, ClawbackAllocation, Surroundings, find_batch, batch_id_of,
  line_id_of, has_status_in, paid_statuses, is_recomputable, allocated,
}
use kurtar.Ledger.Clawback.{is_own, is_locked, is_locked_of}
use kurtar.Ledger.Reconciled.{is_payable?, owner_of, is_backed, IsBacked}

module _ {A : Type 0} where
  pub any-none :
      (P : A → Type 0) (t : A → Bool) (xs : List A)
      → All P xs
      → ((x : A) → P x → t x ≡ false)
      → any t xs ≡ false
  any-none P t [] a never = refl
  any-none P t (x ∷ xs) a never = rw (never x a.0) (any-none P t xs a.1 never)

  pub any-some :
      (P : A → Type 0) (t : A → Bool) (xs : List A)
      → All P xs
      → any t xs ≡ true
      → (x : A) × P x × (t x ≡ true)
  any-some P t [] a e = cc
  any-some P t (x ∷ xs) a e = elim (Bool-cases (t x)) [
    | inl h ↦ (x, a.0, h)
    | inr h ↦ any-some P t xs a.1 (rw h at e)
  ]

  pub All-map : (P Q : A → Type 0) (xs : List A) → ((x : A) → P x → Q x) → All P xs → All Q xs
  All-map P Q [] f a = tt
  All-map P Q (x ∷ xs) f a = (f x a.0, All-map P Q xs f a.1)

  pub All-zip : (P Q : A → Type 0) (xs : List A) → All P xs → All Q xs → All (λ x. P x × Q x) xs
  All-zip P Q [] a b = tt
  All-zip P Q (x ∷ xs) a b = ((a.0, b.0), All-zip P Q xs a.1 b.1)

  pub All-select :
      (P : A → Type 0) (t : A → Bool) (xs : List A)
      → All P xs
      → All (λ x. P x × (t x ≡ true)) (select t xs)
  All-select P t [] a = tt
  All-select P t (x ∷ xs) a = elim (Bool-cases (t x)) [
    | inl h ↦ rw h ((a.0, h), All-select P t xs a.1)
    | inr h ↦ rw h (All-select P t xs a.1)
  ]

  select-all : (xs : List A) → select (λ x. true) xs ≡ xs
  select-all [] = refl
  select-all (x ∷ xs) = ap (λ l. x ∷ l) (select-all xs)

  -- In a table with a unique column every row is found under it.
  pub IsUnique-found :
      (key : A → ℕ) (xs : List A) → IsUnique key xs → All (λ x. find key (key x) xs ≡ some x) xs
  IsUnique-found key xs u =
      let found =
        All-map (IsFound key (λ x. true) xs) (λ x. find key (key x) xs ≡ some x)
          (select (λ x. true) xs) (λ x f. f.0) (select-IsFound key (λ x. true) xs u) in
      rw (select-all xs) at found

abbrev pub of_line : ℕ → ClawbackAllocation → Bool
of_line k a = a.reservation_id == k

pub allocated_none :
    (k : ℕ) (as_ : List ClawbackAllocation) → any (of_line k) as_ ≡ false → allocated k as_ ≡ 0
allocated_none k [] e = refl
allocated_none k (a ∷ as_) e = ground (arith, allocated_none k as_)

recomputable-not_paid :
    (s : SettlementStatus)
    → includes machine recomputable_settlement_statuses s ≡ true
    → includes machine paid_statuses s ≡ false
recomputable-not_paid pending e = refl
recomputable-not_paid calculated e = refl
recomputable-not_paid approved e = refl
recomputable-not_paid held e = refl
recomputable-not_paid sent e = cc
recomputable-not_paid settled e = cc
recomputable-not_paid failed e = refl

pub is_recomputable-not_paid :
    (b : SettlementBatch) → is_recomputable b ≡ true → has_status_in paid_statuses b ≡ false
is_recomputable-not_paid b e =
    elim (Bool-cases (has_status_in recomputable_settlement_statuses b)) [
      | inl h ↦ recomputable-not_paid b.status h
      | inr h ↦ let impossible : false ≡ true = rw h at e in cc
    ]

-- A line that is not there has no allocations.
pub unfound-allocated :
    (batches : List SettlementBatch) (lines : List SettlementLine) (k : ℕ)
    (as_ : List ClawbackAllocation)
    → All (IsBacked batches lines) as_
    → find line_id_of k lines ≡ none
    → allocated k as_ ≡ 0
unfolding is_backed owner_of
unfound-allocated batches lines k as_ a e = allocated_none k as_ (
    any-none (IsBacked batches lines) (of_line k) as_ a (λ x backed.
      elim (Bool-cases (x.reservation_id == k)) [
        | inl h ↦
            let same : x.reservation_id ≡ k = (==_iff _ _).0 h in
            let impossible : false ≡ true = rw (same, e) at backed in cc
        | inr h ↦ h
      ]))

-- A line of a batch that was not paid out has none.
pub unpaid-allocated :
    (batches : List SettlementBatch) (lines : List SettlementLine) (l : SettlementLine)
    (b : SettlementBatch) (as_ : List ClawbackAllocation)
    → All (IsBacked batches lines) as_
    → find line_id_of l.reservation_id lines ≡ some l
    → find batch_id_of l.batch_id batches ≡ some b
    → has_status_in paid_statuses b ≡ false
    → allocated l.reservation_id as_ ≡ 0
unfolding is_backed owner_of
unpaid-allocated batches lines l b as_ a e found unpaid = allocated_none l.reservation_id as_ (
    any-none (IsBacked batches lines) (of_line l.reservation_id) as_ a (λ x backed.
      elim (Bool-cases (x.reservation_id == l.reservation_id)) [
        | inl h ↦
            let same : x.reservation_id ≡ l.reservation_id = (==_iff _ _).0 h in
            let payable : is_payable? (some b) (find batch_id_of x.batch_id batches) ≡ true =
              rw (same, e, found) at backed in
            elim (Option-cases (find batch_id_of x.batch_id batches)) [
              | inl n ↦ let impossible : false ≡ true = rw n at payable in cc
              | inr (c, n) ↦ let impossible : false ≡ true = rw (n, unpaid) at payable in cc
            ]
        | inr h ↦ h
      ]))

-- A batch's own allocation against a line is backed.
own-payable :
    (batches : List SettlementBatch) (lines : List SettlementLine) (l : SettlementLine) (b : ℕ)
    (as_ : List ClawbackAllocation)
    → All (IsBacked batches lines) as_
    → find line_id_of l.reservation_id lines ≡ some l
    → any (is_own b l.reservation_id) as_ ≡ true
    → is_backed batches lines l.reservation_id b ≡ true
own-payable batches lines l b as_ a e own =
    let (x, backed, t) = any-some (IsBacked batches lines) (is_own b l.reservation_id) as_ a own in
    let both : (x.reservation_id ≡ l.reservation_id) × (x.batch_id ≡ b) = ground arith in
    rw (both.0, both.1) at backed

module _ (around : Surroundings) (b : SettlementBatch) (batches : List SettlementBatch)
    (lines : List SettlementLine) (as_ : List ClawbackAllocation)
    (here : find batch_id_of b.id batches ≡ some b)
    (backed : All (IsBacked batches lines) as_) where
  -- The batch may recover from every line that it locks.
  pub is_locked-is_backed :
      (l : SettlementLine)
      → find line_id_of l.reservation_id lines ≡ some l
      → is_locked around b batches as_ l ≡ true
      → is_backed batches lines l.reservation_id b.id ≡ true
  unfolding is_locked find_batch is_backed owner_of
  is_locked-is_backed l e locked = elim (Bool-cases (any (is_own b.id l.reservation_id) as_)) [
    | inl own ↦ own-payable batches lines l b.id as_ backed e own
    | inr own ↦ elim (Option-cases (find batch_id_of l.batch_id batches)) [
      | inl n ↦ let impossible : false ≡ true = rw n at locked in cc
      | inr (owner, n) ↦
          let taken : is_locked_of around b as_ l (some owner) ≡ true = rw n at locked in
          rw (e, n, here) (ground (arith, own))
    ]
  ]

  -- It locks every line that it holds an allocation against.
  pub is_locked-own :
      (l : SettlementLine)
      → find line_id_of l.reservation_id lines ≡ some l
      → is_locked around b batches as_ l ≡ false
      → any (is_own b.id l.reservation_id) as_ ≡ false
  unfolding is_locked find_batch is_backed owner_of
  is_locked-own l e locked = elim (Bool-cases (any (is_own b.id l.reservation_id) as_)) [
    | inr own ↦ own
    | inl own ↦
        let payable = own-payable batches lines l b.id as_ backed e own in
        elim (Option-cases (find batch_id_of l.batch_id batches)) [
          | inl n ↦ let impossible : false ≡ true = rw (e, n) at payable in cc
          | inr (owner, n) ↦
              let open_ : is_locked_of around b as_ l (some owner) ≡ false = rw n at locked in
              let paid : is_payable? (some owner) (some b) ≡ true = rw (e, n, here) at payable in
              ground (arith, own)
        ]
  ]
