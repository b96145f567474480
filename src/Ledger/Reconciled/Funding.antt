-- ===== src/Ledger/Reconciled/Funding.antt =====
-- What a recompute's new allocations are to the lines: within their demands, backed, and none of
-- the batch's own.
use kurtar.Prelude.{
  ℕ, ◌≤◌, ◌≡◌, ◌∙◌, Bool, true, false, some, List, [], ◌∷◌, inl, inr, map, arith, ltb, ◌==◌,
  if◌then◌else◌, All, Bool-cases, ok, >>=-eq-ok,
}
use kurtar.Market.Rows.{find, select}
use kurtar.Settlement.Batch.{
  InputLine, LineResult, Settlement, Params, line_of, compute_line, compute_lines,
  compute_settlement, batch_of,
}
use kurtar.Settlement.Rate.{check_amount, check_positive}
use kurtar.Settlement.Clawback.{Candidate, AllocationLine}
use kurtar.Settlement.Clawback.Attribution.{Answers}
use kurtar.Ledger.State.{
  SettlementBatch, SettlementLine, ClawbackAllocation, Surroundings, batch_id_of, line_id_of,
  has_status_in, paid_statuses, full_clawback_demand_cents, allocated,
}
use kurtar.Ledger.Clawback.{
  is_locked, locked_lines, delete_own_allocations, clawback_candidates, insert_funded,
}
use kurtar.Ledger.Pass.{input_line, input_lines}
use kurtar.Ledger.Sums.{
  funded_for, funded_for-le, total-order_lines, total-select, contains-order_lines, contains-select,
  allocated-delete_own_allocations, own_share_none, allocated-insert_funded, All-order_lines,
  remainder_of, at_key,
}
use kurtar.Ledger.Reconciled.{IsLineSound, is_backed, owner_of}
use kurtar.Ledger.Reconciled.Backed.{
  All-map, All-zip, All-select, IsUnique-found, unpaid-allocated, is_locked-is_backed,
  is_locked-own,
}
use kurtar.Ledger.Reconciled.Lines.{HasSoundLines, IsProjectable}

-- A property of the reservations of the lines is one of those of the results.
compute_lines-All :
    (P : ℕ → Type 0) (fee : ℕ) (ls : List InputLine) (rs : List LineResult)
    → compute_lines fee ls ≡ ok rs
    → All (λ l. P l.reservation_id) ls
    → All (λ r. P r.reservation_id) rs
unfolding compute_lines compute_line line_of
compute_lines-All P fee [] rs e a = let same : [] ≡ rs = cc in rw (← same) tt
compute_lines-All P fee (l ∷ ls) rs e a =
    let (result, e1, e2) = >>=-eq-ok (compute_line fee l) _ e in
    let (gross, e4, e5) = >>=-eq-ok (check_amount l.gross_cents _) _ e1 in
    let (qty, e6, e7) = >>=-eq-ok (check_positive l.qty _) _ e5 in
    let (results, e8, e9) = >>=-eq-ok (compute_lines fee ls) _ e2 in
    let same : (result ∷ results) ≡ rs = cc in
    let first : line_of l.reservation_id gross qty fee ≡ result = cc in
    let rest = compute_lines-All P fee ls results e8 a.1 in rw (← same) (rw (← first) a.0, rest)

pub compute_settlement-All :
    (P : ℕ → Type 0) (p : Params) (r : Settlement)
    → compute_settlement p ≡ ok r
    → All (λ l. P l.reservation_id) p.lines
    → All (λ l. P l.reservation_id) r.per_line
unfolding compute_settlement batch_of
compute_settlement-All P p r e a =
    let (fee, e1, f1) = >>=-eq-ok (check_amount p.bag_fee_cents _) _ e in
    let (due, e2, f2) = >>=-eq-ok (check_amount p.membership_due_cents _) _ f1 in
    let (prior, e3, f3) = >>=-eq-ok (check_amount p.prior_clawback_cents _) _ f2 in
    let (per_line, e4, f4) = >>=-eq-ok (compute_lines fee p.lines) _ f3 in
    let same : batch_of due prior per_line ≡ r = cc in
    let result = compute_lines-All P fee p.lines per_line e4 a in rw (← same) result

All-candidates :
    (P : ℕ → Type 0) (others : List ClawbackAllocation) (ls : List SettlementLine)
    → All (λ l. P l.reservation_id) ls
    → All (λ c. P c.reservation_id) (clawback_candidates others ls)
unfolding clawback_candidates
All-candidates P others [] a = tt
All-candidates P others (l ∷ ls) a =
    let rest = All-candidates P others ls a.1 in
    elim (Bool-cases (ltb 0 (remainder_of others l))) [
      | inl t ↦ rw t (a.0, rest)
      | inr t ↦ rw t rest
    ]

All-Answers :
    (P : ℕ → Type 0) (cs : List Candidate) (answers : List AllocationLine)
    → Answers cs answers
    → All (λ c. P c.reservation_id) cs
    → All (λ a. P a.reservation_id) answers
All-Answers P [] [] h a = tt
All-Answers P [] (l ∷ ls) h a = absurd h
All-Answers P (c ∷ cs) [] h a = absurd h
All-Answers P (c ∷ cs) (l ∷ ls) h a =
    let (same, _, _, _, rest) = h in (rw same a.0, All-Answers P cs ls rest a.1)

module _ (around : Surroundings) (b : SettlementBatch) (batches : List SettlementBatch)
    (lines : List SettlementLine) (as_ : List ClawbackAllocation) (answers : List AllocationLine)
    (here : find batch_id_of b.id batches ≡ some b) (unpaid : has_status_in paid_statuses b ≡ false)
    (sound : HasSoundLines batches as_ lines)
    (split : Answers
      (clawback_candidates
        (delete_own_allocations b.id as_)
        (locked_lines around b batches as_ lines))
      answers) where
  abbrev pub others_of : List ClawbackAllocation
  others_of = delete_own_allocations b.id as_

  abbrev pub after : List ClawbackAllocation
  after = insert_funded b.id answers others_of

  abbrev locks : SettlementLine → Bool
  locks = is_locked around b batches as_

  abbrev IsThere : SettlementLine → Type 0
  IsThere l = find line_id_of l.reservation_id lines ≡ some l

  funded_within :
      (l : SettlementLine)
      → IsThere l
      → funded_for l.reservation_id answers ≤ (if locks l then remainder_of others_of l else 0)
  unfolding locked_lines
  funded_within l there =
      let bound =
        funded_for-le l.reservation_id others_of (locked_lines around b batches as_ lines) answers
          split in
      let order =
        total-order_lines (at_key line_id_of l.reservation_id (remainder_of others_of))
          (select locks lines) in
      let one =
        total-select line_id_of l.reservation_id locks (remainder_of others_of) lines l sound.0
          there in
      omega (arith, bound, order, one)

  unlocked-keeps :
      (l : SettlementLine)
      → IsThere l
      → locks l ≡ false
      → allocated l.reservation_id after ≡ allocated l.reservation_id as_
  unlocked-keeps l there unlocked =
      let bound : funded_for l.reservation_id answers ≤ 0 =
        rw unlocked at (funded_within l there) in
      let own =
        own_share_none b.id l.reservation_id as_
          (is_locked-own around b batches lines as_ here sound.2 l there unlocked) in
      omega (
        arith,
        own,
        bound,
        allocated-insert_funded b.id l.reservation_id answers others_of,
        allocated-delete_own_allocations b.id l.reservation_id as_,
      )

  after_within :
      (l : SettlementLine)
      → IsThere l
      → allocated l.reservation_id as_ ≤ full_clawback_demand_cents l
      → allocated l.reservation_id after ≤ full_clawback_demand_cents l
  after_within l there within =
      let inserted = allocated-insert_funded b.id l.reservation_id answers others_of in
      let deleted = allocated-delete_own_allocations b.id l.reservation_id as_ in
      elim (Bool-cases (locks l)) [
        | inl t ↦
            let bound : funded_for l.reservation_id answers ≤ remainder_of others_of l =
              rw t at (funded_within l there) in
            omega (arith, bound, inserted, deleted)
        | inr t ↦ omega (arith, unlocked-keeps l there t)
      ]

  -- No line of the batch itself has an allocation.
  own_line-unallocated :
      (l : SettlementLine) → IsThere l → l.batch_id ≡ b.id → allocated l.reservation_id after ≡ 0
  unfolding is_backed owner_of
  own_line-unallocated l there same =
      let mine : find batch_id_of l.batch_id batches ≡ some b = rw same here in
      elim (Bool-cases (locks l)) [
        | inr t ↦
            unlocked-keeps l there t
            ∙ unpaid-allocated batches lines l b as_ sound.2 there mine unpaid
        | inl t ↦
            let backed = is_locked-is_backed around b batches lines as_ here sound.2 l there t in
            let impossible : false ≡ true = rw (there, mine, here, unpaid) at backed in cc
      ]

  line-IsProjectable :
      (now : ℕ) (l : SettlementLine)
      → IsThere l
      → IsLineSound as_ l
      → IsProjectable now (map line_id_of (locked_lines around b batches as_ lines)) after l
  unfolding locked_lines
  line-IsProjectable now l there line = (
    after_within l there line.within,
    elim (Bool-cases (locks l)) [
      | inl t ↦ inl (
          contains-order_lines l.reservation_id (select locks lines)
          ∙ contains-select line_id_of l.reservation_id locks lines l there t)
      | inr t ↦
          let same = unlocked-keeps l there t in
          inr (record {
            stored = rw same line.stored;
            within = rw same line.within;
            marked = rw same line.marked;
          })
    ],
  )

  pub lines-IsProjectable :
      (now : ℕ)
      → All
          (IsProjectable now (map line_id_of (locked_lines around b batches as_ lines)) after)
          lines
  lines-IsProjectable now =
      All-map (λ l. IsThere l × IsLineSound as_ l) _ lines
        (λ l both. line-IsProjectable now l both.0 both.1)
        (All-zip IsThere (IsLineSound as_) lines (IsUnique-found line_id_of lines sound.0) sound.1)

  -- The lines that the settlement was computed from have no allocation.
  pub input_lines-unallocated :
      All (λ i. allocated i.reservation_id after ≡ 0) (input_lines around b.id lines)
  unfolding input_lines
  input_lines-unallocated =
      inputs (select (λ l. l.batch_id == b.id) lines) (
        All-select IsThere (λ l. l.batch_id == b.id) lines
          (IsUnique-found line_id_of lines sound.0))
    where
      inputs :
          (ls : List SettlementLine)
          → All (λ l. IsThere l × ((l.batch_id == b.id) ≡ true)) ls
          → All
              (λ (i : InputLine). allocated i.reservation_id after ≡ 0)
              (map (input_line around) ls)
      inputs [] a = tt
      inputs (l ∷ ls) a = (own_line-unallocated l a.0.0 (ground arith), inputs ls a.1)

  -- Every answer of the allocator names a line that the batch may recover from.
  pub answers-backed : All (λ a. is_backed batches lines a.reservation_id b.id ≡ true) answers
  unfolding locked_lines
  answers-backed =
      let locked =
        All-map (λ l. IsThere l × (locks l ≡ true))
          (λ l. is_backed batches lines l.reservation_id b.id ≡ true) (select locks lines)
          (λ l both. is_locked-is_backed around b batches lines as_ here sound.2 l both.0 both.1)
          (All-select IsThere locks lines (IsUnique-found line_id_of lines sound.0)) in
      All-Answers (λ k. is_backed batches lines k b.id ≡ true) _ answers split
        (All-candidates (λ k. is_backed batches lines k b.id ≡ true) others_of _
          (All-order_lines (λ l. is_backed batches lines l.reservation_id b.id ≡ true)
            (select locks lines) locked))
