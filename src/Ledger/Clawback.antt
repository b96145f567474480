-- ===== src/Ledger/Clawback.antt =====
-- settlement-batch-builder.service.ts: the lines that a recompute locks, the allocations that it
-- deletes and inserts, and the projection of the ledger onto the lines.
use kurtar.Prelude.{
  ℕ, ◌-◌, Bool, true, false, ◌&&◌, Option, none, some, List, [], ◌∷◌, map, ltb, leb, not, ◌==◌,
  if◌then◌else◌,
}
use kurtar.Market.Rows.{any, select}
use kurtar.Settlement.Clawback.{Candidate, AllocationLine}
use kurtar.Ledger.State.{
  SettlementBatch, SettlementLine, ClawbackAllocation, Surroundings, find_batch, has_status_in,
  paid_statuses, is_none, full_clawback_demand_cents, allocated, contains,
}

-- The allocation that a batch holds against a line.
abbrev pub is_own : ℕ → ℕ → ClawbackAllocation → Bool
is_own batch_id reservation_id a = (a.reservation_id == reservation_id) && (a.batch_id == batch_id)

-- The disjunction of the query's `WHERE`, for a line of a batch of the merchant.
abbrev pub is_pending_clawback : Surroundings → SettlementBatch → SettlementLine → Bool
is_pending_clawback around owner l =
    if is_none l.clawback_applied_at
    then (if has_status_in paid_statuses owner then around.is_refunded l.reservation_id else false)
    else false

abbrev pub is_locked_of :
    Surroundings
    → SettlementBatch
    → List ClawbackAllocation
    → SettlementLine
    → Option SettlementBatch
    → Bool
is_locked_of around batch allocations l none = false
is_locked_of around batch allocations l (some owner) =
    if owner.merchant_id == batch.merchant_id
    then (if any (is_own batch.id l.reservation_id) allocations
        then true
        else is_pending_clawback around owner l)
    else false

unfoldable pub is_locked :
    Surroundings
    → SettlementBatch
    → List SettlementBatch
    → List ClawbackAllocation
    → SettlementLine
    → Bool
unfolding find_batch
is_locked around batch batches allocations l =
    is_locked_of around batch allocations l (find_batch l.batch_id batches)

-- `ORDER BY sl."redeemedAt" ASC, sl."reservationId" ASC`.
abbrev pub precedes : SettlementLine → SettlementLine → Bool
precedes a b =
    if ltb a.redeemed_at b.redeemed_at
    then true
    else (a.redeemed_at == b.redeemed_at) && leb a.reservation_id b.reservation_id

unfoldable pub insert_ordered : SettlementLine → List SettlementLine → List SettlementLine
insert_ordered l [] = l ∷ []
insert_ordered l (x ∷ xs) = if precedes l x then l ∷ x ∷ xs else x ∷ insert_ordered l xs

unfoldable pub order_lines : List SettlementLine → List SettlementLine
unfolding insert_ordered
order_lines [] = []
order_lines (l ∷ ls) = insert_ordered l (order_lines ls)

-- The rows of `lockAndResetOwnClawbackLedger`'s query.
unfoldable pub locked_lines :
    Surroundings
    → SettlementBatch
    → List SettlementBatch
    → List ClawbackAllocation
    → List SettlementLine
    → List SettlementLine
unfolding is_locked order_lines
locked_lines around batch batches allocations lines =
    order_lines (select (is_locked around batch batches allocations) lines)

-- `settlementClawbackAllocation.deleteMany({ where: { batchId } })`.
unfoldable pub delete_own_allocations : ℕ → List ClawbackAllocation → List ClawbackAllocation
delete_own_allocations batch_id allocations = select (λ a. not (a.batch_id == batch_id)) allocations

-- A locked line with what the other batches recovered of it.
abbrev pub candidate_of : List ClawbackAllocation → SettlementLine → Candidate
candidate_of others l = record {
  reservation_id = l.reservation_id;
  full_demand_cents = full_clawback_demand_cents l;
  other_batches_recovered_cents = allocated l.reservation_id others;
}

-- Those with a positive remainder.
unfoldable pub clawback_candidates : List ClawbackAllocation → List SettlementLine → List Candidate
clawback_candidates others [] = []
clawback_candidates others (l ∷ ls) =
    if ltb 0 (full_clawback_demand_cents l - allocated l.reservation_id others)
    then candidate_of others l ∷ clawback_candidates others ls
    else clawback_candidates others ls

-- `funded`, inserted before the rows that were there.
unfoldable pub insert_funded :
    ℕ → List AllocationLine → List ClawbackAllocation → List ClawbackAllocation
insert_funded batch_id [] allocations = allocations
insert_funded batch_id (a ∷ as_) allocations =
    if ltb 0 a.absorbed_cents
    then record {
      batch_id = batch_id;
      reservation_id = a.reservation_id;
      amount_cents = a.absorbed_cents;
    }
      ∷ insert_funded batch_id as_ allocations
    else insert_funded batch_id as_ allocations

-- The greatest batch that holds an allocation against the line.
unfoldable pub last_batch_id : ℕ → List ClawbackAllocation → Option ℕ
last_batch_id reservation_id [] = none
last_batch_id reservation_id (a ∷ as_) =
    let rest = last_batch_id reservation_id as_ in
    if a.reservation_id == reservation_id
    then elim rest [
      | none ↦ some a.batch_id
      | some id ↦ some (if ltb id a.batch_id then a.batch_id else id)
    ]
    else rest

-- `line.clawbackAppliedAt ?? now`.
abbrev pub or_now : ℕ → Option ℕ → Option ℕ
or_now now none = some now
or_now now (some at) = some at

abbrev pub projected : ℕ → List ClawbackAllocation → SettlementLine → SettlementLine
projected now allocations l =
    let recovered = allocated l.reservation_id allocations in
    let full_demand = full_clawback_demand_cents l in
    record l {
      clawback_cents = recovered;
      clawback_batch_id = last_batch_id l.reservation_id allocations;
      clawback_applied_at =
          if ltb 0 full_demand && leb full_demand recovered
          then or_now now l.clawback_applied_at
          else none;
    }

-- `projectLinesFromLedger`: every line that is named is written, the others are left alone.
unfoldable pub project_lines_from_ledger :
    ℕ → List ℕ → List ClawbackAllocation → List SettlementLine → List SettlementLine
unfolding last_batch_id
project_lines_from_ledger now ids allocations lines =
    map (λ l. if contains l.reservation_id ids then projected now allocations l else l) lines
