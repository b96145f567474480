-- ===== src/Settlement/Clawback/Attribution.antt =====
-- settlement-math.ts: every kuruş that a batch withholds against refunds is attributed, oldest first.
use kurtar.Prelude.{
  ℕ, ◌+◌, ◌-◌, ◌≤◌, ◌<◌, ◌≡◌, refl, ◌↔◌, ◌⊎◌, min, true, List, [], ◌∷◌, map, arith, sum, ok, err,
}
use kurtar.Settlement.Rate.{JsNumber, int, amount, IsAmount, check_amount-ok}
use kurtar.Prelude.Int.{pos}
use kurtar.Settlement.Batch.{Settlement, Params, compute_settlement}
use kurtar.Settlement.Batch.Accounting.{IsValid, compute_settlement-ok, batch_of-chain, line_result}
use kurtar.Settlement.Clawback.{
  Candidate, AllocationLine, Allocation, remaining_clawback_demand_cents,
  total_clawback_demand_cents, allocate_one, allocate_candidates, allocate_clawback, unattributed,
}

abbrev pub absorbed_total : List AllocationLine → ℕ
absorbed_total ls = sum (map (λ l. l.absorbed_cents) ls)

-- One entry for each candidate, in order, which takes no more than the candidate still owes, adds
-- it to what the other batches took, and is resolved exactly when a positive demand is covered.
abbrev pub Answers : List Candidate → List AllocationLine → Type 0
Answers [] [] = Unit
Answers [] (l ∷ ls) = ⊥
Answers (c ∷ cs) [] = ⊥
Answers (c ∷ cs) (l ∷ ls) =
    (l.reservation_id ≡ c.reservation_id)
    × (l.absorbed_cents ≤ remaining_clawback_demand_cents c)
    × (l.cumulative_cents ≡ c.other_batches_recovered_cents + l.absorbed_cents)
    × ((l.fully_resolved ≡ true)
        ↔ ((0 < c.full_demand_cents) × (c.full_demand_cents ≤ l.cumulative_cents)))
    × Answers cs ls

-- First in, first out: a candidate gets anything only when all before it are covered.
abbrev pub IsFifo : List Candidate → List AllocationLine → Type 0
IsFifo [] ls = Unit
IsFifo (c ∷ cs) [] = Unit
IsFifo (c ∷ cs) (l ∷ ls) =
    ((l.absorbed_cents ≡ remaining_clawback_demand_cents c) ⊎ (absorbed_total ls ≡ 0))
    × IsFifo cs ls

allocate_candidates-total :
    (n : ℕ) (cs : List Candidate)
    → let (ls, left) = allocate_candidates n cs in
      (absorbed_total ls ≡ min n (total_clawback_demand_cents cs)) × (left + absorbed_total ls ≡ n)
unfolding allocate_candidates total_clawback_demand_cents
allocate_candidates-total n [] = omega arith
allocate_candidates-total n (c ∷ cs) =
    omega (arith, allocate_candidates-total (n - (allocate_one n c).absorbed_cents) cs)

allocate_candidates-Answers :
    (n : ℕ) (cs : List Candidate) → Answers cs (allocate_candidates n cs).0
unfolding allocate_candidates
allocate_candidates-Answers n [] = tt
allocate_candidates-Answers n (c ∷ cs) = (
  refl,
  omega arith,
  refl,
  ground arith,
  allocate_candidates-Answers (n - (allocate_one n c).absorbed_cents) cs,
)

allocate_candidates-IsFifo : (n : ℕ) (cs : List Candidate) → IsFifo cs (allocate_candidates n cs).0
unfolding allocate_candidates
allocate_candidates-IsFifo n [] = tt
allocate_candidates-IsFifo n (c ∷ cs) =
    let left = n - (allocate_one n c).absorbed_cents in
    (omega (arith, allocate_candidates-total left cs), allocate_candidates-IsFifo left cs)

-- What an allocation of `applied` kuruş is: all of it lands on the external demand, first, and on
-- the candidates, in order.
pub record IsSplit (applied external : ℕ) (cs : List Candidate) (a : Allocation) : Type 0 where
  pub exhausted : a.external_absorbed_cents + absorbed_total a.per_candidate ≡ applied
  pub external_first :
      (a.external_absorbed_cents ≤ external)
      × ((a.external_absorbed_cents ≡ external) ⊎ (absorbed_total a.per_candidate ≡ 0))
  pub answers : Answers cs a.per_candidate
  pub fifo : IsFifo cs a.per_candidate

abbrev split : ℕ → ℕ → List Candidate → Allocation
split applied external cs = record {
  external_absorbed_cents = min external applied;
  per_candidate = (allocate_candidates (applied - min external applied) cs).0;
}

-- If the applied amount is covered by the external demand and the candidates' remaining demand,
-- `allocateClawback` returns, with every kuruş attributed: to the external demand first, then to
-- the candidates in order, one entry each and none beyond what it still owes.
pub allocate_clawback-IsSplit :
    (applied external : ℕ) (cs : List Candidate)
    → applied ≤ external + total_clawback_demand_cents cs
    → (a : Allocation) × (allocate_clawback (int (pos applied)) (int (pos external)) cs ≡ ok a)
      × IsSplit applied external cs a
unfolding allocate_clawback
allocate_clawback-IsSplit applied external cs h =
    let left = applied - min external applied in
    let (total, rest) = allocate_candidates-total left cs in
    let none_left : (allocate_candidates left cs).1 ≡ 0 = omega arith in
    (
      split applied external cs,
      rw none_left,
      record {
        exhausted = omega arith;
        external_first = omega arith;
        answers = allocate_candidates-Answers left cs;
        fifo = allocate_candidates-IsFifo left cs;
      },
    )

-- If both amounts are whole and not negative, and the applied amount is beyond the external demand
-- and the candidates' remaining demand together, `allocateClawback` throws, naming just the excess.
pub allocate_clawback-unattributed :
    (applied external : JsNumber) (cs : List Candidate)
    → IsAmount applied
    → IsAmount external
    → amount external + total_clawback_demand_cents cs < amount applied
    → allocate_clawback applied external cs
      ≡ err (unattributed (amount applied - amount external - total_clawback_demand_cents cs))
unfolding allocate_clawback
allocate_clawback-unattributed applied external cs g h excess =
    let left = amount applied - min (amount external) (amount applied) in
    let rest = allocate_candidates-total left cs in
    let over : (allocate_candidates left cs).1
        ≡ amount applied - amount external - total_clawback_demand_cents cs =
      omega arith in
    rw (check_amount-ok applied _ g, check_amount-ok external _ h) (rw over (ground arith))

-- The clawback that `computeSettlement` applies, when its demand was computed from the external
-- demand and the candidates, can always be attributed: `allocateClawback` does not throw.
pub compute_settlement-allocates :
    (p : Params) (external : ℕ) (cs : List Candidate)
    → IsValid p
    → amount p.prior_clawback_cents ≡ external + total_clawback_demand_cents cs
    → (r : Settlement) × (a : Allocation) × (compute_settlement p ≡ ok r)
      × (allocate_clawback (int (pos r.refund_clawback_cents)) (int (pos external)) cs ≡ ok a)
      × IsSplit r.refund_clawback_cents external cs a
compute_settlement-allocates p external cs v e =
    let chain =
      batch_of-chain (amount p.membership_due_cents) (amount p.prior_clawback_cents)
        (map (line_result (amount p.bag_fee_cents)) p.lines) in
    let (a, allocated, is_split) =
      allocate_clawback-IsSplit _ external cs (omega (arith, chain.1)) in
    (_, a, compute_settlement-ok p v, allocated, is_split)
