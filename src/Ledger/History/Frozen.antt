-- ===== src/Ledger/History/Frozen.antt =====
-- settlement-payout.service.ts: once a payout was attempted, the batch's amount never moves again.
use kurtar.BusinessDays.{one_day_ms}
use kurtar.Prelude.{
  ℕ, ◌*◌, ◌≡◌, refl, sym, ap, map, ◌∙◌, true, false, none, some, List, ◌==◌, ==_iff, Bool-cases,
  Option-cases, inl, inr, Result, ok, err, err-ok, guard, >>=-eq-ok,
}
use kurtar.Market.Rows.{find, write}
use kurtar.Market.Rows.Laws.{find-write, find-key}
use kurtar.Settlement.Batch.{compute_settlement}
use kurtar.Ledger.State.{
  SettlementBatch, Ledger, Surroundings, Error, find_batch, batch_id_of, has_status_in, is_none,
  is_recomputable, ledger_divergence, carried_demand_already_collected, batch_not_found, line_id_of,
}
use kurtar.Status.Settlement.{recomputable_settlement_statuses}
use kurtar.Ledger.Pass.{
  PendingSettlementLine, Pass, pass_of, found_merchant, resolve_bag_fee_cents_for_merchant,
}
use kurtar.Ledger.Recompute.{
  updated_batch, commit_pass, checked, rederive, recompute_batch, has_ledger_identity,
  honours_irrevocable_claims, settlement_result, recompute_params, recompute_allocation,
}
use kurtar.Ledger.Membership.{persist_offset}
use kurtar.Ledger.Reconciled.Opened.{find-cons}
use kurtar.Ledger.Open.{open_batch, find_first, is_open_for, new_batch}
use kurtar.Ledger.History.{
  Step, Reaches, recomputed, opened, approved_by, held_by, settled_by, paid_out, elsewhere, start,
  step,
}
use kurtar.Ledger.History.Kept.{
  IsKept, same_payout, approve_guarded-IsKept, admin_hold-IsKept, admin_mark_settled-IsKept,
  IsKept-trans, execute_read-IsKept,
}

-- What a recompute that returned did to the batches: it wrote the named one, which was open.
checked-ok :
    (pass : Pass) (written : SettlementBatch × Ledger) (answer : SettlementBatch × Ledger)
    → checked pass written ≡ ok answer
    → written ≡ answer
unfolding checked
checked-ok pass written answer e =
    let (_, e1, e2) =
      >>=-eq-ok
        (guard (has_ledger_identity written.0 (map line_id_of pass.locked) written.1)
          ledger_divergence)
        _ e in
    let (_, e3, e4) =
      >>=-eq-ok
        (guard (honours_irrevocable_claims written.0 written.1) carried_demand_already_collected) _
        e2 in
    cc

rederive-write :
    (around : Surroundings) (b : SettlementBatch) (now : ℕ) (lines : List PendingSettlementLine)
    (db : Ledger) (answer : SettlementBatch × Ledger)
    → rederive around b now lines db ≡ ok answer
    → (f : SettlementBatch → SettlementBatch) × ((x : SettlementBatch) → (f x).id ≡ x.id)
      × (answer.1.batches ≡ write batch_id_of b.id (λ row. true) f db.batches)
unfolding rederive commit_pass updated_batch
rederive-write around b now lines db answer e =
    let (merchant, e1, f1) = >>=-eq-ok (found_merchant (around.merchant b.merchant_id)) _ e in
    let (fee, e2, f2) =
      >>=-eq-ok (resolve_bag_fee_cents_for_merchant merchant b.period_start around.pricings) _ f1 in
    let pass = pass_of around b merchant lines db in
    let (result, e3, f3) =
      >>=-eq-ok (settlement_result (compute_settlement (recompute_params around b.id pass fee))) _
        f2 in
    let (allocation, e4, f4) = >>=-eq-ok (recompute_allocation pass result) _ f3 in
    let same = checked-ok pass (commit_pass now b pass result allocation db) answer f4 in
    let vat = (persist_offset now pass.due result.membership_offset_cents db.subscriptions).0 in
    (
      λ row. updated_batch now row pass result vat allocation,
      λ x. refl,
      ap (λ w. w.1.batches) (sym same),
    )

is_recomputable-stamped :
    (b : SettlementBatch)
    → is_none b.payout_attempted_at ≡ false
    → is_recomputable b ≡ true
    → false ≡ true
is_recomputable-stamped b stamped open_ =
    elim (Bool-cases (has_status_in recomputable_settlement_statuses b)) [
      | inl t ↦ rw (t, stamped) at open_
      | inr t ↦ rw t at open_
    ]

recompute_batch-IsKept :
    (around : Surroundings) (id now : ℕ) (lines : List PendingSettlementLine) (db db2 : Ledger)
    (r b : SettlementBatch)
    → recompute_batch around id now lines db ≡ ok (r, db2)
    → is_none b.payout_attempted_at ≡ false
    → find batch_id_of b.id db.batches ≡ some b
    → IsKept b db2.batches
unfolding recompute_batch find_batch
recompute_batch-IsKept around id now lines db db2 r b e stamped here =
    elim (Option-cases (find batch_id_of id db.batches)) [
      | inl n ↦
          let thrown : ◌≡◌ {A = Result Error (SettlementBatch × Ledger)} (err batch_not_found)
              (ok (r, db2)) =
            rw (n, recompute_batch) at e in
          absurd (err-ok batch_not_found (r, db2) thrown)
      | inr (x, n) ↦
          let named = find-key batch_id_of id db.batches x n in
          elim (Bool-cases (is_recomputable x)) [
            | inr t ↦
                let same : ◌≡◌ {A = Result Error (SettlementBatch × Ledger)} (ok (x, db))
                    (ok (r, db2)) =
                  rw (n, t, recompute_batch) at e in
                let kept : db ≡ db2 = cc in rw (← kept) (b, here, same_payout b)
            | inl t ↦
                let (f, keep_id, table) =
                  rederive-write around x now lines db (r, db2) (rw (n, t, recompute_batch) at e) in
                let after = find-write batch_id_of b.id x.id (λ row. true) f db.batches keep_id in
                elim (Bool-cases (x.id == b.id)) [
                  | inr other ↦ (b, rw table (rw (after, other, here) refl), same_payout b)
                  | inl mine ↦
                      let key : x.id ≡ b.id = (==_iff _ _).0 mine in
                      let rows : some b ≡ some x =
                        sym here ∙ ap (λ k. find batch_id_of k db.batches) (sym key ∙ named) ∙ n in
                      let one : b ≡ x = cc in
                      let open_ : is_recomputable b ≡ true = rw one t in
                      let impossible : false ≡ true = is_recomputable-stamped b stamped open_ in cc
                ]
          ]
    ]

open_batch-IsKept :
    (new_id merchant_id day : ℕ) (holidays : List ℕ) (db : Ledger) (b : SettlementBatch)
    → find batch_id_of new_id db.batches ≡ none
    → find batch_id_of b.id db.batches ≡ some b
    → IsKept b (open_batch new_id merchant_id day holidays db).1.batches
unfolding open_batch
open_batch-IsKept new_id merchant_id day holidays db b fresh here =
    elim (Option-cases (find_first (is_open_for merchant_id (day * one_day_ms)) db.batches)) [
      | inr (x, e) ↦ rw (e, open_batch) (b, here, same_payout b)
      | inl e ↦
          let found =
            find-cons (new_batch new_id merchant_id day holidays) db.batches b.id b fresh here in
          rw (e, open_batch) (b, found, same_payout b)
    ]

Step-IsKept :
    (db db2 : Ledger) (b : SettlementBatch)
    → Step db db2
    → is_none b.payout_attempted_at ≡ false
    → find batch_id_of b.id db.batches ≡ some b
    → IsKept b db2.batches
Step-IsKept db db2 b (recomputed around id now lines {b = r} e) s here =
    recompute_batch-IsKept around id now lines db db2 r b e s here
Step-IsKept db _ b (opened new_id merchant_id day holidays fresh) s here =
    open_batch-IsKept new_id merchant_id day holidays db b fresh here
Step-IsKept db _ b (approved_by id admin_id) s here = approve_guarded-IsKept b s id admin_id db here
Step-IsKept db _ b (held_by id admin_id) s here = admin_hold-IsKept b s id admin_id db here
Step-IsKept db _ b (settled_by id admin_id now) s here =
    admin_mark_settled-IsKept b s id admin_id now db here
Step-IsKept db _ b (paid_out provider now read) s here =
    execute_read-IsKept provider now read db b s here
Step-IsKept db db2 b (elsewhere e1 e2 e3 e4) s here = (b, rw e1 here, same_payout b)

-- Once a payout was attempted of a batch, the batch keeps its net payout, its merchant and the
-- moment of the attempt in every later state, whatever transactions follow; and if it is sent or
-- settled, it stays so.
pub payout_attempted-IsKept :
    (db db2 : Ledger) (b : SettlementBatch)
    → Reaches db db2
    → is_none b.payout_attempted_at ≡ false
    → find batch_id_of b.id db.batches ≡ some b
    → IsKept b db2.batches
payout_attempted-IsKept db db2 b start s here = (b, here, same_payout b)
payout_attempted-IsKept db db3 b (step {db2 = db2} r last) s here =
    IsKept-trans b db2.batches db3.batches s (payout_attempted-IsKept db db2 b r s here)
      (λ c t found. Step-IsKept db2 db3 c last t found)
