-- ===== src/Ledger/Reconciled.antt =====
-- settlement-batch-builder.service.ts: the state that the recompute's rules R1 to R3 keep, in which
-- the batches, the lines, the allocations and the claims tell the same amounts.
pub mod Backed
pub mod Lines
pub mod Funding
pub mod Batches
pub mod Commit
pub mod Tripwire
pub mod Guarded
pub mod Opened
use kurtar.Prelude.{
  ℕ, ◌+◌, ◌-◌, ◌≤◌, ◌≡◌, Bool, true, false, ◌&&◌, not, Option, none, some, List, ltb, leb, ◌==◌,
  if◌then◌else◌, All,
}
use kurtar.Market.Rows.{find}
use kurtar.Market.Rows.Laws.{IsUnique}
use kurtar.Ledger.State.{
  SettlementBatch, SettlementLine, ClawbackAllocation, CarriedDemandClaim, Ledger, find_batch,
  find_line, batch_id_of, line_id_of, has_status_in, paid_statuses, is_none,
  full_clawback_demand_cents, allocated, allocated_by,
}
use kurtar.Ledger.Carried.{claimed_by}

-- A line's batch was paid out, and is of the merchant of the batch that recovers from it.
abbrev pub is_payable? : Option SettlementBatch → Option SettlementBatch → Bool
is_payable? none b = false
is_payable? (some owner) none = false
is_payable? (some owner) (some b) =
    if has_status_in paid_statuses owner then owner.merchant_id == b.merchant_id else false

abbrev pub batch_id? : Option SettlementLine → Option ℕ
batch_id? none = none
batch_id? (some l) = some l.batch_id

unfoldable pub owner_of : ℕ → List SettlementLine → Option ℕ
unfolding find
owner_of reservation_id lines = batch_id? (find line_id_of reservation_id lines)

abbrev pub is_backed_by : List SettlementBatch → Option ℕ → ℕ → Bool
is_backed_by batches none batch_id = false
is_backed_by batches (some owner) batch_id =
    is_payable? (find batch_id_of owner batches) (find batch_id_of batch_id batches)

-- An allocation of the batch against the line may stand in the ledger.
unfoldable pub is_backed : List SettlementBatch → List SettlementLine → ℕ → ℕ → Bool
unfolding owner_of find
is_backed batches lines reservation_id batch_id =
    is_backed_by batches (owner_of reservation_id lines) batch_id

abbrev pub IsBacked : List SettlementBatch → List SettlementLine → ClawbackAllocation → Type 0
IsBacked batches lines a = is_backed batches lines a.reservation_id a.batch_id ≡ true

-- The line stores the sum of its allocations, which is within its demand, and is marked as
-- recovered exactly when a positive demand is covered.
pub record IsLineSound (allocations : List ClawbackAllocation) (l : SettlementLine) : Type 0 where
  pub stored : l.clawback_cents ≡ allocated l.reservation_id allocations
  pub within : allocated l.reservation_id allocations ≤ full_clawback_demand_cents l
  pub marked : not (is_none l.clawback_applied_at) ≡ (
      ltb 0 (full_clawback_demand_cents l)
      && leb (full_clawback_demand_cents l) (allocated l.reservation_id allocations))

-- What the batch withheld is what it inherited and absorbed, and its allocations; what it
-- inherited is its claim.
pub record IsBatchSound (allocations : List ClawbackAllocation) (claims : List CarriedDemandClaim)
    (b : SettlementBatch) : Type 0 where
  pub claimed : b.inherited_external_demand_cents ≡ claimed_by b.id claims
  pub absorbed : b.carried_external_demand_cents ≤ b.inherited_external_demand_cents
  pub withheld :
      b.refund_clawback_cents
      ≡ allocated_by b.id allocations
        + (b.inherited_external_demand_cents - b.carried_external_demand_cents)

-- The claim's claimant is there.
abbrev pub HasClaimant : List SettlementBatch → CarriedDemandClaim → Type 0
HasClaimant batches c = is_none (find batch_id_of c.claimant_batch_id batches) ≡ false

pub record IsReconciled (db : Ledger) : Type 0 where
  pub unique_batches : IsUnique batch_id_of db.batches
  pub unique_lines : IsUnique line_id_of db.lines
  pub backed : All (IsBacked db.batches db.lines) db.allocations
  pub lines : All (IsLineSound db.allocations) db.lines
  pub batches : All (IsBatchSound db.allocations db.claims) db.batches
  pub claimants : All (HasClaimant db.batches) db.claims
