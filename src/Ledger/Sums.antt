-- ===== src/Ledger/Sums.antt =====
-- The sums over lines and allocations that the recompute rearranges: the order of the locked lines,
-- the deletion of a batch's own allocations, and the insertion of the funded ones.
use kurtar.Prelude.{
  ℕ, ◌+◌, ◌-◌, ◌≤◌, ◌≡◌, refl, ap, ◌∙◌, Bool, true, false, none, some, List, [], ◌∷◌, map, arith,
  ◌==◌, ==_iff, if◌then◌else◌, All, Bool-cases, inl, inr,
}
use kurtar.Market.Rows.{find, any, select, total}
use kurtar.Market.Rows.Laws.{IsUnique}
use kurtar.Settlement.Clawback.{Candidate, AllocationLine, remaining_clawback_demand_cents}
use kurtar.Settlement.Clawback.Attribution.{Answers, absorbed_total}
use kurtar.Ledger.State.{
  SettlementLine, ClawbackAllocation, line_id_of, full_clawback_demand_cents, allocated,
  allocated_by, contains,
}
use kurtar.Ledger.Clawback.{
  is_own, insert_ordered, order_lines, delete_own_allocations, clawback_candidates, insert_funded,
  precedes,
}

-- A weight on the rows with one key.
abbrev pub at_key {ℓ} : {A : Type ℓ} → (A → ℕ) → ℕ → (A → ℕ) → A → ℕ
at_key key k w x = if key x == k then w x else 0

module _ {A : Type 0} (key : A → ℕ) where
  total-select_absent :
      (k : ℕ) (f : A → Bool) (w : A → ℕ) (xs : List A)
      → find key k xs ≡ none
      → total (at_key key k w) (select f xs) ≡ 0
  unfolding find
  total-select_absent k f w [] e = refl
  total-select_absent k f w (x ∷ xs) e = ground (arith, total-select_absent k f w xs)

  -- Of the selected rows with a unique key there is at most one.
  pub total-select :
      (k : ℕ) (f : A → Bool) (w : A → ℕ) (xs : List A) (x : A)
      → IsUnique key xs
      → find key k xs ≡ some x
      → total (at_key key k w) (select f xs) ≡ (if f x then w x else 0)
  unfolding find
  total-select k f w [] x u e = cc
  total-select k f w (y ∷ xs) x u e = elim (Bool-cases (key y == k)) [
    | inl h ↦
        let same : y ≡ x = ground arith in
        let here : key y ≡ k = (==_iff _ _).0 h in
        let rest = total-select_absent k f w xs (rw here at u.0) in
        ground (arith, same, rest, ap f same, ap w same)
    | inr h ↦ let rest = total-select k f w xs x u.1 (ground arith) in ground (arith, rest)
  ]

  pub contains-select :
      (k : ℕ) (f : A → Bool) (xs : List A) (x : A)
      → find key k xs ≡ some x
      → f x ≡ true
      → contains k (map key (select f xs)) ≡ true
  unfolding find
  contains-select k f [] x e t = cc
  contains-select k f (y ∷ xs) x e t = elim (Bool-cases (key y == k)) [
    | inl h ↦
        let same : y ≡ x = ground arith in let t2 : f y ≡ true = rw same t in rw t2 (rw h refl)
    | inr h ↦ let rest = contains-select k f xs x (ground arith) t in ground (arith, rest)
  ]

total-insert_ordered :
    (w : SettlementLine → ℕ) (l : SettlementLine) (xs : List SettlementLine)
    → total w (insert_ordered l xs) ≡ w l + total w xs
unfolding insert_ordered
total-insert_ordered w l [] = refl
total-insert_ordered w l (x ∷ xs) = elim (Bool-cases (precedes l x)) [
  | inl h ↦ rw h refl
  | inr h ↦ rw h (omega (arith, total-insert_ordered w l xs))
]

pub total-order_lines :
    (w : SettlementLine → ℕ) (ls : List SettlementLine) → total w (order_lines ls) ≡ total w ls
unfolding order_lines
total-order_lines w [] = refl
total-order_lines w (l ∷ ls) =
    total-insert_ordered w l (order_lines ls) ∙ omega (arith, total-order_lines w ls)

contains-insert_ordered :
    (k : ℕ) (l : SettlementLine) (xs : List SettlementLine)
    → contains k (map line_id_of (insert_ordered l xs))
      ≡ (if l.reservation_id == k then true else contains k (map line_id_of xs))
unfolding insert_ordered
contains-insert_ordered k l [] = refl
contains-insert_ordered k l (x ∷ xs) = elim (Bool-cases (precedes l x)) [
  | inl h ↦ rw h refl
  | inr h ↦ rw h (rw (contains-insert_ordered k l xs) (ground arith))
]

pub contains-order_lines :
    (k : ℕ) (ls : List SettlementLine)
    → contains k (map line_id_of (order_lines ls)) ≡ contains k (map line_id_of ls)
unfolding order_lines
contains-order_lines k [] = refl
contains-order_lines k (l ∷ ls) =
    contains-insert_ordered k l (order_lines ls) ∙ rw (contains-order_lines k ls) refl

All-insert_ordered :
    (P : SettlementLine → Type 0) (l : SettlementLine) (xs : List SettlementLine)
    → P l
    → All P xs
    → All P (insert_ordered l xs)
unfolding insert_ordered
All-insert_ordered P l [] p a = (p, tt)
All-insert_ordered P l (x ∷ xs) p a = elim (Bool-cases (precedes l x)) [
  | inl h ↦ rw h (p, a)
  | inr h ↦ rw h (a.0, All-insert_ordered P l xs p a.1)
]

pub All-order_lines :
    (P : SettlementLine → Type 0) (ls : List SettlementLine) → All P ls → All P (order_lines ls)
unfolding order_lines
All-order_lines P [] a = tt
All-order_lines P (l ∷ ls) a =
    All-insert_ordered P l (order_lines ls) a.0 (All-order_lines P ls a.1)

-- What a batch itself holds against a line.
abbrev pub own_share : ℕ → ℕ → List ClawbackAllocation → ℕ
own_share batch_id reservation_id allocations =
    total (λ a. if is_own batch_id reservation_id a then a.amount_cents else 0) allocations

pub allocated-delete_own_allocations :
    (b k : ℕ) (as_ : List ClawbackAllocation)
    → allocated k (delete_own_allocations b as_) + own_share b k as_ ≡ allocated k as_
unfolding delete_own_allocations
allocated-delete_own_allocations b k [] = refl
allocated-delete_own_allocations b k (a ∷ as_) =
    ground (arith, allocated-delete_own_allocations b k as_)

pub own_share_none :
    (b k : ℕ) (as_ : List ClawbackAllocation) → any (is_own b k) as_ ≡ false → own_share b k as_ ≡ 0
own_share_none b k [] h = refl
own_share_none b k (a ∷ as_) h = ground (arith, own_share_none b k as_)

pub allocated_by-delete_own_allocations :
    (b c : ℕ) (as_ : List ClawbackAllocation)
    → allocated_by c (delete_own_allocations b as_) ≡ (if b == c then 0 else allocated_by c as_)
unfolding delete_own_allocations
allocated_by-delete_own_allocations b c [] = ground arith
allocated_by-delete_own_allocations b c (a ∷ as_) =
    ground (arith, allocated_by-delete_own_allocations b c as_)

abbrev pub funded_for : ℕ → List AllocationLine → ℕ
funded_for k answers = total (at_key (λ a. a.reservation_id) k (λ a. a.absorbed_cents)) answers

pub allocated-insert_funded :
    (b k : ℕ) (answers : List AllocationLine) (as_ : List ClawbackAllocation)
    → allocated k (insert_funded b answers as_) ≡ funded_for k answers + allocated k as_
unfolding insert_funded
allocated-insert_funded b k [] as_ = omega arith
allocated-insert_funded b k (a ∷ answers) as_ =
    ground (arith, allocated-insert_funded b k answers as_)

pub allocated_by-insert_funded :
    (b c : ℕ) (answers : List AllocationLine) (as_ : List ClawbackAllocation)
    → allocated_by c (insert_funded b answers as_)
      ≡ (if b == c then absorbed_total answers else 0) + allocated_by c as_
unfolding insert_funded
allocated_by-insert_funded b c [] as_ = ground arith
allocated_by-insert_funded b c (a ∷ answers) as_ =
    ground (arith, allocated_by-insert_funded b c answers as_)

funded_for-le-candidates :
    (k : ℕ) (cs : List Candidate) (answers : List AllocationLine)
    → Answers cs answers
    → funded_for k answers
      ≤ total (at_key (λ c. c.reservation_id) k remaining_clawback_demand_cents) cs
funded_for-le-candidates k [] [] h = omega arith
funded_for-le-candidates k [] (a ∷ answers) h = absurd h
funded_for-le-candidates k (c ∷ cs) [] h = absurd h
funded_for-le-candidates k (c ∷ cs) (a ∷ answers) h =
    let (same, bound, _, _, others) = h in
    let rest = funded_for-le-candidates k cs answers others in ground (arith, rest, same, bound)

-- What a line still owes beside the other batches' recoveries.
abbrev pub remainder_of : List ClawbackAllocation → SettlementLine → ℕ
remainder_of others l = full_clawback_demand_cents l - allocated l.reservation_id others

candidates-le-lines :
    (k : ℕ) (others : List ClawbackAllocation) (ls : List SettlementLine)
    → total
        (at_key (λ c. c.reservation_id) k remaining_clawback_demand_cents)
        (clawback_candidates others ls)
      ≤ total (at_key line_id_of k (remainder_of others)) ls
unfolding clawback_candidates remaining_clawback_demand_cents
candidates-le-lines k others [] = omega arith
candidates-le-lines k others (l ∷ ls) =
    let rest = candidates-le-lines k others ls in ground (arith, rest)

pub funded_for-le :
    (k : ℕ) (others : List ClawbackAllocation) (ls : List SettlementLine)
    (answers : List AllocationLine)
    → Answers (clawback_candidates others ls) answers
    → funded_for k answers ≤ total (at_key line_id_of k (remainder_of others)) ls
funded_for-le k others ls answers h =
    let first = funded_for-le-candidates k (clawback_candidates others ls) answers h in
    let second = candidates-le-lines k others ls in omega arith
