-- ===== src/Ledger/Recompute.antt =====
-- settlement-batch-builder.service.ts: `recomputeBatch`.
use kurtar.Prelude.{
  ℕ, ◌+◌, ◌-◌, Bool, true, ◌&&◌, none, some, List, [], ◌∷◌, ◌++◌, map, leb, ◌==◌, if◌then◌else◌,
  Result, ok, err, guard, ◌>>=◌, ◌>>◌,
}
use kurtar.Prelude.Int.{pos}
use kurtar.Status.Settlement.{calculated, held}
use kurtar.Market.Rows.{write, select}
use kurtar.Settlement.Rate.{JsNumber, int}
use kurtar.Settlement.Batch.{InputLine, LineResult, Settlement, compute_settlement}
use kurtar.Settlement.Batch
use kurtar.Settlement.Clawback
use kurtar.Settlement.Clawback.{
  Candidate, AllocationLine, Allocation, total_clawback_demand_cents, allocate_clawback,
}
use kurtar.Ledger.State.{
  SettlementBatch, SettlementLine, ClawbackAllocation, Ledger, Surroundings, automatic, Error,
  batch_not_found, settlement_error, clawback_error, ledger_divergence,
  carried_demand_already_collected, find_batch, batch_id_of, line_id_of, is_recomputable,
  full_clawback_demand_cents, allocated, allocated_by, contains,
}
use kurtar.Ledger.Membership.{due_cents?, persist_offset}
use kurtar.Ledger.Clawback.{insert_funded, or_now, project_lines_from_ledger}
use kurtar.Ledger.Carried.{
  exportable_carried_demand_cents, record_claim, claimed_by, irrevocably_collected,
}
use kurtar.Ledger.Pass.{
  PendingSettlementLine, resolve_bag_fee_cents_for_merchant, found_merchant, input_lines, Pass,
  pass_of,
}

abbrev pub settlement_result : Result Batch.Error Settlement → Result Error Settlement
settlement_result (ok s) = ok s
settlement_result (err e) = err (settlement_error e)

abbrev pub clawback_result : Result Clawback.Error Allocation → Result Error Allocation
clawback_result (ok a) = ok a
clawback_result (err e) = err (clawback_error e)

-- The row that the recompute writes.
unfoldable pub updated_batch :
    ℕ → SettlementBatch → Pass → Settlement → ℕ → Allocation → SettlementBatch
updated_batch now batch pass result vat allocation = record batch {
  gross_cents = result.gross_cents;
  bag_fee_cents = result.bag_fee_cents;
  bag_fee_vat_cents = result.bag_fee_vat_cents;
  withholding_cents = result.withholding_cents;
  membership_offset_cents = result.membership_offset_cents;
  membership_offset_vat_cents = vat;
  refund_clawback_cents = result.refund_clawback_cents;
  net_payout_cents = result.net_payout_cents;
  carried_shortfall_cents = result.carried_shortfall_cents;
  carried_external_demand_cents = pass.carried_from_prior - allocation.external_absorbed_cents;
  inherited_external_demand_cents = pass.carried_from_prior;
  carried_demand_source_batch_id = pass.source;
  shortfall_resolved_at = or_now now batch.shortfall_resolved_at;
  status = if result.held then held else calculated;
  hold_reason = if result.held then some (automatic result.carried_shortfall_cents) else none;
}

-- The fees of the batch's own lines, one update for each result.
unfoldable pub write_fees : List LineResult → List SettlementLine → List SettlementLine
unfolding write
write_fees [] lines = lines
write_fees (r ∷ rs) lines = write_fees rs (
    write line_id_of r.reservation_id (λ l. true)
      (λ l. record l {
        bag_fee_cents = r.bag_fee_cents;
        bag_fee_vat_cents = r.bag_fee_vat_cents;
        withholding_cents = r.withholding_cents;
      })
      lines)

-- All writes of a recompute, in the order of the source.
unfoldable pub commit_pass :
    ℕ → SettlementBatch → Pass → Settlement → Allocation → Ledger → SettlementBatch × Ledger
unfolding persist_offset updated_batch record_claim write_fees insert_funded
    project_lines_from_ledger write
commit_pass now batch pass result allocation db =
    let claims = record_claim batch.id pass.source pass.carried_from_prior pass.other_claims in
    let (vat, subscriptions) =
      persist_offset now pass.due result.membership_offset_cents db.subscriptions in
    let updated = updated_batch now batch pass result vat allocation in
    let allocations = insert_funded batch.id allocation.per_candidate pass.others in
    (
      updated,
      record db {
        batches =
            write batch_id_of batch.id (λ row. true)
              (λ row. updated_batch now row pass result vat allocation) db.batches;
        lines =
            project_lines_from_ledger now (map line_id_of pass.locked) allocations
              (write_fees result.per_line pass.lines);
        allocations = allocations;
        claims = claims;
        subscriptions = subscriptions;
      },
    )

-- The reservations of a batch's allocations.
abbrev pub funded_lines : ℕ → List ClawbackAllocation → List ℕ
funded_lines batch_id allocations =
    map (λ a. a.reservation_id) (select (λ a. a.batch_id == batch_id) allocations)

-- The line stores the sum of its allocations, which does not exceed its demand.
abbrev pub is_reconciled : List ClawbackAllocation → SettlementLine → Bool
is_reconciled allocations l =
    let recovered = allocated l.reservation_id allocations in
    (l.clawback_cents == recovered) && leb recovered (full_clawback_demand_cents l)

abbrev pub all_reconciled : List ℕ → List ClawbackAllocation → List SettlementLine → Bool
all_reconciled touched allocations [] = true
all_reconciled touched allocations (l ∷ ls) =
    (if contains l.reservation_id touched then is_reconciled allocations l else true)
    && all_reconciled touched allocations ls

-- `assertLedgerIdentity`: whether it lets the transaction commit.
unfoldable pub has_ledger_identity : SettlementBatch → List ℕ → Ledger → Bool
unfolding claimed_by
has_ledger_identity batch responsible db =
    (batch.inherited_external_demand_cents == claimed_by batch.id db.claims)
    && leb batch.carried_external_demand_cents batch.inherited_external_demand_cents
    && (allocated_by batch.id db.allocations
          + (batch.inherited_external_demand_cents - batch.carried_external_demand_cents)
        == batch.refund_clawback_cents)
    && all_reconciled (responsible ++ funded_lines batch.id db.allocations) db.allocations db.lines

-- `assertIrrevocableClaimsHonoured`.
unfoldable pub honours_irrevocable_claims : SettlementBatch → Ledger → Bool
unfolding irrevocably_collected exportable_carried_demand_cents
honours_irrevocable_claims batch db =
    leb (irrevocably_collected batch.id db.batches db.claims)
      (exportable_carried_demand_cents batch)

-- The two assertions, behind which the transaction commits.
unfoldable pub checked : Pass → SettlementBatch × Ledger → Result Error (SettlementBatch × Ledger)
unfolding has_ledger_identity honours_irrevocable_claims
checked pass written = do
  guard (has_ledger_identity written.0 (map line_id_of pass.locked) written.1) ledger_divergence
  guard (honours_irrevocable_claims written.0 written.1) carried_demand_already_collected
  ok written

-- What `computeSettlement` and `allocateClawback` are called with.
abbrev pub recompute_params : Surroundings → ℕ → Pass → JsNumber → Batch.Params
recompute_params around batch_id pass bag_fee_cents = record {
  lines = input_lines around batch_id pass.lines;
  bag_fee_cents = bag_fee_cents;
  membership_due_cents = int (pos (due_cents? pass.due));
  prior_clawback_cents =
      int (pos (total_clawback_demand_cents pass.candidates + pass.carried_from_prior));
}

abbrev pub recompute_allocation : Pass → Settlement → Result Error Allocation
recompute_allocation pass result = clawback_result (
    allocate_clawback (int (pos result.refund_clawback_cents)) (int (pos pass.carried_from_prior))
      pass.candidates)

-- The transaction behind its guard.
unfoldable pub rederive :
    Surroundings
    → SettlementBatch
    → ℕ
    → List PendingSettlementLine
    → Ledger
    → Result Error (SettlementBatch × Ledger)
unfolding resolve_bag_fee_cents_for_merchant pass_of input_lines compute_settlement
    allocate_clawback total_clawback_demand_cents commit_pass checked
rederive around batch now pending db = do
  merchant ← found_merchant (around.merchant batch.merchant_id)
  bag_fee_cents ← resolve_bag_fee_cents_for_merchant merchant batch.period_start around.pricings
  let pass = pass_of around batch merchant pending db
  result ←
      settlement_result (compute_settlement (recompute_params around batch.id pass bag_fee_cents))
  allocation ← recompute_allocation pass result
  checked pass (commit_pass now batch pass result allocation db)

-- `recomputeBatch`. A batch that is frozen is returned as it is, and gets no lines.
unfoldable pub recompute_batch :
    Surroundings
    → ℕ
    → ℕ
    → List PendingSettlementLine
    → Ledger
    → Result Error (SettlementBatch × Ledger)
unfolding find_batch rederive
recompute_batch around batch_id now pending db = elim (find_batch batch_id db.batches) [
  | none ↦ err batch_not_found
  | some batch ↦
      if is_recomputable batch then rederive around batch now pending db else ok (batch, db)
]
