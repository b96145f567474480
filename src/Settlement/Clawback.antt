-- ===== src/Settlement/Clawback.antt =====
-- backend/src/modules/settlements/settlement-math.ts: `allocateClawback` and the demand it spends.
pub mod Attribution
use kurtar.Prelude.{
  ℕ, ◌+◌, ◌-◌, ◌≡◌, min, Bool, ◌&&◌, List, [], ◌∷◌, map, ltb, leb, ◌==◌, sum, Result, ok, err,
  ◌>>=◌, if◌then◌else◌,
}
use kurtar.Settlement.Rate.{JsNumber, check_amount}

pub data Error : Type 0 where
  invalid_applied_clawback_cents invalid_external_demand_cents : Error
  unattributed : ℕ → Error

-- The caller floors both amounts at 0, so they are natural numbers.
pub record Candidate : Type 0 where
  pub reservation_id : ℕ
  pub full_demand_cents : ℕ
  pub other_batches_recovered_cents : ℕ

pub record AllocationLine : Type 0 where
  pub reservation_id : ℕ
  pub absorbed_cents : ℕ
  pub cumulative_cents : ℕ
  pub fully_resolved : Bool

pub record Allocation : Type 0 where
  pub external_absorbed_cents : ℕ
  pub per_candidate : List AllocationLine

unfoldable pub remaining_clawback_demand_cents : Candidate → ℕ
remaining_clawback_demand_cents c = c.full_demand_cents - c.other_batches_recovered_cents

unfoldable pub total_clawback_demand_cents : List Candidate → ℕ
unfolding remaining_clawback_demand_cents
total_clawback_demand_cents candidates = sum (map remaining_clawback_demand_cents candidates)

-- The body of the `.map`, for what is left to allocate.
unfoldable pub allocate_one : ℕ → Candidate → AllocationLine
unfolding remaining_clawback_demand_cents
allocate_one remaining c =
    let absorbed = min remaining (remaining_clawback_demand_cents c) in
    let cumulative = c.other_batches_recovered_cents + absorbed in
    record {
      reservation_id = c.reservation_id;
      absorbed_cents = absorbed;
      cumulative_cents = cumulative;
      fully_resolved = ltb 0 c.full_demand_cents && leb c.full_demand_cents cumulative;
    }

-- `candidates.map(…)` with the captured `remaining`: the entries, and what is left in the end.
unfoldable pub allocate_candidates : ℕ → List Candidate → List AllocationLine × ℕ
unfolding allocate_one
allocate_candidates remaining [] = ([], remaining)
allocate_candidates remaining (c ∷ cs) =
    let line = allocate_one remaining c in
    let (rest, left) = allocate_candidates (remaining - line.absorbed_cents) cs in
    (line ∷ rest, left)

unfoldable pub allocate_clawback : JsNumber → JsNumber → List Candidate → Result Error Allocation
unfolding check_amount
allocate_clawback applied_clawback_cents external_demand_cents candidates = do
  applied ← check_amount applied_clawback_cents invalid_applied_clawback_cents
  external ← check_amount external_demand_cents invalid_external_demand_cents
  let external_absorbed = min external applied
  let (per_candidate, remaining) = allocate_candidates (applied - external_absorbed) candidates
  if remaining == 0
      then ok
          (record { external_absorbed_cents = external_absorbed; per_candidate = per_candidate })
      else err (unattributed remaining)
