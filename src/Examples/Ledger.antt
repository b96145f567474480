-- ===== src/Examples/Ledger.antt =====
-- A merchant with one batch paid out, a refund on its line, and the next day's batch.
use kurtar.Prelude.{
  All, ℕ, ◌≡◌, ◌+◌, refl, true, none, some, List, [], ◌∷◌, Result, ok, err, ◌==◌, ◌*◌, ◌<◌, map,
  arith,
}
use kurtar.Prelude.Int.{pos}
use kurtar.Market.Rows.{find, write, matched, total}
use kurtar.Settlement.Rate.{int, round_kurus, apply_rate_cents, check_amount, check_positive}
use kurtar.Settlement.Batch.{
  Params, Settlement, compute_settlement, compute_lines, compute_line, line_of, batch_of,
}
use kurtar.Settlement.Clawback.{
  allocate_clawback, allocate_candidates, allocate_one, remaining_clawback_demand_cents,
  total_clawback_demand_cents,
}
use kurtar.Status.Settlement.{approved, sent}
use kurtar.Status.Reservation.{no_show}
use kurtar.Ledger.State.{
  psp_transfer, SettlementBatch, SettlementLine, MembershipSubscription, MerchantTerms,
  Surroundings, Ledger, active, trial, find_batch, find_line, batch_id_of, is_none,
}
use kurtar.Ledger.Membership.{
  due_of, resolve_due, split_membership_offset_vat, offset_subscription, persist_offset,
}
use kurtar.Ledger.Membership.Conservation.{offset_subscription-conserves}
use kurtar.Ledger.Clawback.{
  is_locked, insert_ordered, order_lines, locked_lines, delete_own_allocations, clawback_candidates,
  insert_funded, last_batch_id, project_lines_from_ledger,
}
use kurtar.Ledger.Carried.{
  exportable_carried_demand_cents, discover_carried_demand_source,
  resolve_carried_demand_from_source, delete_own_claim, record_claim, claimed_by,
  irrevocably_collected,
}
use kurtar.Ledger.Pass.{
  PendingSettlementLine, insert_lines, resolve_bag_fee_cents_for_merchant, input_lines, pass_of,
}
use kurtar.Ledger.Recompute.{
  updated_batch, write_fees, commit_pass, has_ledger_identity, honours_irrevocable_claims, checked,
  rederive, recompute_batch,
}
use kurtar.Ledger.Open.{new_batch}
use kurtar.Ledger.Admin.{approve_guarded}
use kurtar.Ledger.History.SameAmount.{IsSameCall, execute_one-IsSameCall}
use kurtar.Ledger.History.SentOnce.{mark_sent_once}
use kurtar.Ledger.Payout.{PayoutCall, call_of, execute_one, execute_read, call_provider, mark_sent}
use kurtar.Ledger.Nightly.{SettlementAnchored, run_nightly_cycle}
use kurtar.Ledger.Reconciled.{IsReconciled, is_backed, owner_of}
use kurtar.Ledger.Reconciled.Tripwire.{Outcome, recompute_batch-IsReconciled}
use kurtar.Ledger.History.{Reaches, start, step, approved_by, recomputed}
use kurtar.Ledger.History.Reconciled.{Reaches-IsReconciled}
use kurtar.Ledger.History.Kept.{IsKept}
use kurtar.Ledger.History.Frozen.{payout_attempted-IsKept}
use kurtar.Ledger.History.Night.{IsGoodNight, run_nightly_cycle-IsGoodNight}

abbrev paid_batch : SettlementBatch
paid_batch = record (new_batch 10 1 20600 []) {
  status = sent;
  gross_cents = 10000;
  bag_fee_cents = 1500;
  bag_fee_vat_cents = 300;
  withholding_cents = 82;
  net_payout_cents = 8118;
  payout_attempted_at = some 5;
}

abbrev open_batch_row : SettlementBatch
open_batch_row = new_batch 11 1 20601 []

abbrev paid_line : SettlementLine
paid_line = record {
  reservation_id = 100;
  batch_id = 10;
  redeemed_at = 3;
  gross_cents = 10000;
  bag_fee_cents = 1500;
  bag_fee_vat_cents = 300;
  withholding_cents = 82;
  clawback_cents = 0;
  clawback_applied_at = none;
  clawback_batch_id = none;
}

abbrev new_line_101 : PendingSettlementLine
new_line_101 = record {
  reservation_id = 101;
  redeemed_at = 4;
  gross_cents = 5000;
  bag_fee_cents = 1500;
  bag_fee_vat_cents = 300;
  withholding_cents = 32;
}

abbrev subscription : MembershipSubscription
subscription = record {
  id = 1;
  merchant_id = 1;
  status = trial;
  outstanding_cents = 1200;
  outstanding_vat_cents = 200;
  current_period_start = 0;
  current_period_end = 20601 * 86400000 + 1;
  period_paid_at = none;
}

abbrev merchant : MerchantTerms
merchant = record { bag_fee_cents_override = some (int (pos 1500)); membership_exempt_until = none }

abbrev around : Surroundings
around = record {
  merchant = λ id. some merchant;
  qty = λ id. int (pos 1);
  is_refunded = λ id. id == 100;
  pricings = [];
}

abbrev ledger : Ledger
ledger = record {
  batches = open_batch_row ∷ paid_batch ∷ [];
  lines = paid_line ∷ [];
  allocations = [];
  claims = [];
  subscriptions = subscription ∷ [];
  outbox = [];
  audit_log = [];
}

ledger-IsReconciled : IsReconciled ledger
unfolding find is_backed owner_of claimed_by
ledger-IsReconciled = record {
  unique_batches = (refl, (refl, tt));
  unique_lines = (refl, tt);
  backed = tt;
  lines = (record { stored = refl; within = omega arith; marked = refl }, tt);
  batches = (
    record { claimed = refl; absorbed = omega arith; withheld = refl },
    (record { claimed = refl; absorbed = omega arith; withheld = refl }, tt),
  );
  claimants = tt;
}

recompute_batch-IsReconciled_example :
    Outcome (recompute_batch around 11 1000 (new_line_101 ∷ []) ledger)
recompute_batch-IsReconciled_example =
    recompute_batch-IsReconciled around 11 1000 (new_line_101 ∷ []) ledger ledger-IsReconciled

paid_found : find batch_id_of paid_batch.id ledger.batches ≡ some paid_batch
unfolding find
paid_found = refl

abbrev answered :
    Result kurtar.Ledger.State.Error (SettlementBatch × Ledger) → SettlementBatch × Ledger
answered (ok answer) = answer
answered (err e) = (open_batch_row, ledger)

abbrev answer : SettlementBatch × Ledger
answer = answered (recompute_batch around 11 1000 (new_line_101 ∷ []) ledger)

-- Of 5000 gross, 3168 is left after the fees; 1200 goes to the membership, the rest to the refund.
recompute_ledger :
    (answer.0.membership_offset_cents ≡ 1200)
    × (answer.0.refund_clawback_cents ≡ 1968)
    × (answer.0.net_payout_cents ≡ 0)
unfolding recompute_batch find_batch find_line find write rederive
    resolve_bag_fee_cents_for_merchant pass_of insert_lines resolve_due due_of locked_lines
    is_locked order_lines insert_ordered delete_own_allocations clawback_candidates
    discover_carried_demand_source delete_own_claim resolve_carried_demand_from_source
    exportable_carried_demand_cents input_lines compute_settlement compute_lines compute_line
    line_of batch_of check_amount check_positive apply_rate_cents round_kurus
    total_clawback_demand_cents remaining_clawback_demand_cents allocate_clawback
    allocate_candidates allocate_one commit_pass persist_offset split_membership_offset_vat
    offset_subscription updated_batch record_claim write_fees insert_funded
    project_lines_from_ledger last_batch_id checked has_ledger_identity claimed_by
    honours_irrevocable_claims irrevocably_collected
recompute_ledger = (refl, refl, refl)

recompute_answers :
    recompute_batch around 11 1000 (new_line_101 ∷ []) ledger ≡ ok (answer.0, answer.1)
unfolding recompute_batch find_batch find_line find write rederive
    resolve_bag_fee_cents_for_merchant pass_of insert_lines resolve_due due_of locked_lines
    is_locked order_lines insert_ordered delete_own_allocations clawback_candidates
    discover_carried_demand_source delete_own_claim resolve_carried_demand_from_source
    exportable_carried_demand_cents input_lines compute_settlement compute_lines compute_line
    line_of batch_of check_amount check_positive apply_rate_cents round_kurus
    total_clawback_demand_cents remaining_clawback_demand_cents allocate_clawback
    allocate_candidates allocate_one commit_pass persist_offset split_membership_offset_vat
    offset_subscription updated_batch record_claim write_fees insert_funded
    project_lines_from_ledger last_batch_id checked has_ledger_identity claimed_by
    honours_irrevocable_claims irrevocably_collected
recompute_answers = refl

-- The history: the recompute, then the guarded update of an approval.
abbrev history : Reaches ledger (approve_guarded 11 7 answer.1).0
history =
    step (step start (recomputed around 11 1000 (new_line_101 ∷ []) recompute_answers))
      (approved_by 11 7)

Reaches-IsReconciled_example : IsReconciled (approve_guarded 11 7 answer.1).0
Reaches-IsReconciled_example = Reaches-IsReconciled ledger _ history ledger-IsReconciled

-- The batch that was paid out is as it was.
payout_attempted-IsKept_example : IsKept paid_batch (approve_guarded 11 7 answer.1).0.batches
payout_attempted-IsKept_example =
    payout_attempted-IsKept ledger (approve_guarded 11 7 answer.1).0 paid_batch history refl
      paid_found

abbrev night_params : Params
night_params = record {
  lines = record { reservation_id = 101; gross_cents = int (pos 5000); qty = int (pos 1) } ∷ [];
  bag_fee_cents = int (pos 1500);
  membership_due_cents = int (pos 1200);
  prior_clawback_cents = int (pos 0);
}

abbrev settlement : Settlement
settlement = batch_of 1200 0 (line_of 101 5000 1 1500 ∷ [])

settlement_computed : compute_settlement night_params ≡ ok settlement
unfolding compute_settlement compute_lines compute_line check_amount check_positive
settlement_computed = refl

due_is : 1200 ≡ (due_of merchant open_batch_row subscription).due_cents
unfolding due_of
due_is = refl

mark_sent_once_example :
    mark_sent 2000 10 (psp_transfer 9) (approve_guarded 11 7 answer.1).0
    ≡ (approve_guarded 11 7 answer.1).0
mark_sent_once_example =
    mark_sent_once ledger (approve_guarded 11 7 answer.1).0 paid_batch 2000 (psp_transfer 9) history
      refl refl paid_found

offset_subscription-conserves_example :
    let due = due_of merchant open_batch_row subscription in
    let offset = settlement.membership_offset_cents in
    let written = offset_subscription 1000 due offset subscription in
    (written.outstanding_cents + offset ≡ 1200 + 0)
    × (written.outstanding_vat_cents
          + split_membership_offset_vat due.due_cents due.due_vat_cents offset
        ≡ 200 + 0)
offset_subscription-conserves_example =
    offset_subscription-conserves merchant open_batch_row subscription 1000 night_params settlement
      due_is settlement_computed

abbrev reservation : SettlementAnchored
reservation = record {
  id = 101;
  merchant_id = 1;
  status = no_show;
  is_paid = true;
  redeemed_at = none;
  pickup_end_at = 20601 * 86400000 + 1000;
  total_cents = 5000;
  qty = int (pos 1);
}

-- An identifier beyond all that are there.
abbrev next_id : Ledger → ℕ
next_id db = 1 + total batch_id_of db.batches

find_beyond :
    (k : ℕ) (batches : List SettlementBatch)
    → total batch_id_of batches < k
    → find batch_id_of k batches ≡ none
unfolding find
find_beyond k [] h = refl
find_beyond k (b ∷ batches) h = ground (arith, find_beyond k batches)

next_id_fresh : (db : Ledger) → find batch_id_of (next_id db) db.batches ≡ none
next_id_fresh db = find_beyond (next_id db) db.batches (omega arith)

run_nightly_cycle-IsGoodNight_example :
    IsGoodNight (run_nightly_cycle around [] next_id 1000 (reservation ∷ []) ledger)
run_nightly_cycle-IsGoodNight_example =
    run_nightly_cycle-IsGoodNight around [] next_id 1000 next_id_fresh (reservation ∷ []) ledger
      ledger-IsReconciled

abbrev approved_row : SettlementBatch
approved_row = record (new_batch 12 1 20602 []) { status = approved; net_payout_cents = 8000 }

abbrev stale_row : SettlementBatch
stale_row = record approved_row { net_payout_cents = 10000 }

abbrev approved_ledger : Ledger
approved_ledger = record ledger { batches = approved_row ∷ [] }

-- A payout that read the row before it was held, recomputed and approved again stamps the new row,
-- and calls the provider with the amount that it read.
stale_payout :
    (map (λ c. c.amount_cents) (execute_read (λ m a id. some 1) 9 stale_row approved_ledger).0
      ≡ 10000 ∷ [])
    × (map
          (λ b. b.net_payout_cents)
          (execute_read (λ m a id. some 1) 9 stale_row approved_ledger).1.batches
        ≡ 8000 ∷ [])
unfolding execute_read call_provider mark_sent find write matched find_batch
stale_payout = (refl, refl)

-- The provider fails first, and answers the retry.
abbrev attempted : List PayoutCall × Ledger
attempted = execute_read (λ m a id. none) 9 approved_row approved_ledger

abbrev attempted_row : SettlementBatch
attempted_row = record approved_row { payout_attempted_at = some 9 }

abbrev retried : List PayoutCall × Ledger
retried = execute_read (λ m a id. some 1) 10 attempted_row attempted.1

attempted_eq :
    execute_one (λ m a id. none) 9 12 approved_ledger ≡ ok (call_of approved_row ∷ [], attempted.1)
unfolding execute_one execute_read call_provider find write matched find_batch
attempted_eq = refl

retried_eq :
    execute_one (λ m a id. some 1) 10 12 attempted.1 ≡ ok (call_of attempted_row ∷ [], retried.1)
unfolding execute_one execute_read call_provider mark_sent find write matched find_batch
retried_eq = refl

execute_one-IsSameCall_example :
    All (IsSameCall (call_of approved_row)) (call_of attempted_row ∷ [])
execute_one-IsSameCall_example =
    execute_one-IsSameCall (λ m a id. none) (λ m a id. some 1) 9 10 12 approved_ledger attempted.1
      attempted.1 retried.1 (call_of approved_row) [] (call_of attempted_row ∷ []) attempted_eq
      start retried_eq
