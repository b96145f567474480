-- ===== src/Ledger/History/Reconciled.antt =====
-- Every history, and every nightly cycle, keeps the ledger reconciled.
use kurtar.Prelude.{
  ℕ, ◌≡◌, refl, sym, ◌∙◌, Bool, true, false, Option, none, some, List, [], ◌∷◌, if◌then◌else◌,
  Bool-cases, Option-cases, inl, inr, Result, ok, err-ok, ◌==◌,
}
use kurtar.Status.Settlement.{
  SettlementStatus, machine, pending, calculated, approved, held, sent, settled, failed,
}
use kurtar.Status.{includes}
use kurtar.Market.Rows.{find, write, matched}
use kurtar.Ledger.State.{
  SettlementBatch, Ledger, Surroundings, AuditAction, Error, batch_id_of, find_batch, has_status_in,
  paid_statuses, is_none, TransferRef, psp_transfer, no_transfer_zero_net, approved_batch,
  held_batch, settled_batch,
}
use kurtar.Ledger.Pass.{PendingSettlementLine}
use kurtar.Ledger.Recompute.{recompute_batch}
use kurtar.Ledger.Admin.{
  guarded_update, admin_get, approve_guarded, approve_row, approved_from_statuses, can_hold,
  hold_row, held_from_statuses, admin_hold, admin_mark_settled, settle_row, settled_from_statuses,
}
use kurtar.Ledger.Payout.{
  PayoutProvider, sent_from_statuses, sent_row, mark_sent, publish_sent, call_provider, can_stamp,
  stamp_row, execute_read,
}
use kurtar.Ledger.Reconciled.{IsReconciled}
use kurtar.Ledger.Reconciled.Tripwire.{recompute_batch-IsReconciled}
use kurtar.Ledger.Reconciled.Guarded.{IsStatusUpdate, write-IsReconciled, same-IsReconciled}
use kurtar.Ledger.Reconciled.Opened.{open_batch-IsReconciled}
use kurtar.Ledger.History.{
  Step, Reaches, recomputed, opened, approved_by, held_by, settled_by, paid_out, elsewhere, start,
  step,
}

includes_paid : SettlementStatus → Bool
includes_paid s = includes machine paid_statuses s

not_approvable_paid :
    (s : SettlementStatus)
    → includes machine approved_from_statuses s ≡ true
    → includes machine paid_statuses s ≡ true
    → includes machine paid_statuses approved ≡ true
not_approvable_paid pending g h = cc
not_approvable_paid calculated g h = cc
not_approvable_paid approved g h = cc
not_approvable_paid held g h = cc
not_approvable_paid sent g h = cc
not_approvable_paid settled g h = cc
not_approvable_paid failed g h = cc

not_holdable_paid :
    (s : SettlementStatus)
    → includes machine held_from_statuses s ≡ true
    → includes machine paid_statuses s ≡ true
    → includes machine paid_statuses held ≡ true
not_holdable_paid pending g h = cc
not_holdable_paid calculated g h = cc
not_holdable_paid approved g h = cc
not_holdable_paid held g h = cc
not_holdable_paid sent g h = cc
not_holdable_paid settled g h = cc
not_holdable_paid failed g h = cc

pub approve_row-IsStatusUpdate : IsStatusUpdate (has_status_in approved_from_statuses) approve_row
approve_row-IsStatusUpdate = record {
  id = λ x. refl;
  merchant = λ x. refl;
  refund = λ x. refl;
  inherited = λ x. refl;
  carried = λ x. refl;
  paid = λ x g h. not_approvable_paid x.status g h;
}

pub hold_row-IsStatusUpdate : IsStatusUpdate can_hold hold_row
hold_row-IsStatusUpdate = record {
  id = λ x. refl;
  merchant = λ x. refl;
  refund = λ x. refl;
  inherited = λ x. refl;
  carried = λ x. refl;
  paid = λ x g h. elim (Bool-cases (has_status_in held_from_statuses x)) [
    | inl t ↦ not_holdable_paid x.status t h
    | inr t ↦ let impossible : false ≡ true = rw t at g in cc
  ];
}

settle_row-IsStatusUpdate :
    (now : ℕ) → IsStatusUpdate (has_status_in settled_from_statuses) (settle_row now)
settle_row-IsStatusUpdate now = record {
  id = λ x. refl;
  merchant = λ x. refl;
  refund = λ x. refl;
  inherited = λ x. refl;
  carried = λ x. refl;
  paid = λ x g h. refl;
}

sent_row-IsStatusUpdate :
    (now : ℕ) (ref : TransferRef)
    → IsStatusUpdate (has_status_in sent_from_statuses) (sent_row now ref)
sent_row-IsStatusUpdate now ref = record {
  id = λ x. refl;
  merchant = λ x. refl;
  refund = λ x. refl;
  inherited = λ x. refl;
  carried = λ x. refl;
  paid = λ x g h. refl;
}

stamp_row-IsStatusUpdate : (now : ℕ) → IsStatusUpdate can_stamp (stamp_row now)
stamp_row-IsStatusUpdate now = record {
  id = λ x. refl;
  merchant = λ x. refl;
  refund = λ x. refl;
  inherited = λ x. refl;
  carried = λ x. refl;
  paid = λ x g h. h;
}

guarded_update-IsReconciled :
    (admin_id : ℕ) (action : AuditAction) (id : ℕ) (guard : SettlementBatch → Bool)
    (f : SettlementBatch → SettlementBatch) (db : Ledger)
    → IsStatusUpdate guard f
    → IsReconciled db
    → IsReconciled (guarded_update admin_id action id guard f db).1
unfolding guarded_update
guarded_update-IsReconciled admin_id action id guard f db u h =
    elim (Bool-cases (matched batch_id_of id guard db.batches)) [
      | inl t ↦ rw t (
          same-IsReconciled (record db { batches = write batch_id_of id guard f db.batches }) _ refl
            refl refl refl (write-IsReconciled guard f u id db h))
      | inr t ↦ rw t h
    ]

admin_get-IsReconciled :
    (id admin_id : ℕ) (db : Ledger) → IsReconciled db → IsReconciled (admin_get id admin_id db).0
unfolding admin_get find_batch
admin_get-IsReconciled id admin_id db h = elim (Option-cases (find batch_id_of id db.batches)) [
  | inl e ↦ rw (e, admin_get) h
  | inr (b, e) ↦ rw (e, admin_get) (same-IsReconciled db _ refl refl refl refl h)
]

-- The shape of the three admin updates.
abbrev finished : Bool × Ledger → (Ledger → Ledger) → Ledger
finished (done, db) get = if done then get db else db

approve_guarded-IsReconciled :
    (id admin_id : ℕ) (db : Ledger)
    → IsReconciled db
    → IsReconciled (approve_guarded id admin_id db).0
unfolding approve_guarded
approve_guarded-IsReconciled id admin_id db h =
    let moved =
      guarded_update admin_id approved_batch id (has_status_in approved_from_statuses) approve_row
        db in
    let kept =
      guarded_update-IsReconciled admin_id approved_batch id (has_status_in approved_from_statuses)
        approve_row db approve_row-IsStatusUpdate h in
    elim (Bool-cases moved.0) [
      | inl t ↦ rw t (admin_get-IsReconciled id admin_id moved.1 kept)
      | inr t ↦ rw t kept
    ]

admin_hold-IsReconciled :
    (id admin_id : ℕ) (db : Ledger) → IsReconciled db → IsReconciled (admin_hold id admin_id db).0
unfolding admin_hold
admin_hold-IsReconciled id admin_id db h =
    let moved = guarded_update admin_id held_batch id can_hold hold_row db in
    let kept =
      guarded_update-IsReconciled admin_id held_batch id can_hold hold_row db
        hold_row-IsStatusUpdate h in
    elim (Bool-cases moved.0) [
      | inl t ↦ rw t (admin_get-IsReconciled id admin_id moved.1 kept)
      | inr t ↦ rw t kept
    ]

admin_mark_settled-IsReconciled :
    (id admin_id now : ℕ) (db : Ledger)
    → IsReconciled db
    → IsReconciled (admin_mark_settled id admin_id now db).0
unfolding admin_mark_settled
admin_mark_settled-IsReconciled id admin_id now db h =
    let moved =
      guarded_update admin_id settled_batch id (has_status_in settled_from_statuses)
        (settle_row now) db in
    let kept =
      guarded_update-IsReconciled admin_id settled_batch id (has_status_in settled_from_statuses)
        (settle_row now) db (settle_row-IsStatusUpdate now) h in
    elim (Bool-cases moved.0) [
      | inl t ↦ rw t (admin_get-IsReconciled id admin_id moved.1 kept)
      | inr t ↦ rw t kept
    ]

publish_sent-IsReconciled :
    (ref : TransferRef) (o : Option SettlementBatch) (db : Ledger)
    → IsReconciled db
    → IsReconciled (publish_sent ref o db)
publish_sent-IsReconciled ref none db h = h
publish_sent-IsReconciled ref (some b) db h = same-IsReconciled db _ refl refl refl refl h

mark_sent-IsReconciled :
    (now id : ℕ) (ref : TransferRef) (db : Ledger)
    → IsReconciled db
    → IsReconciled (mark_sent now id ref db)
unfolding mark_sent
mark_sent-IsReconciled now id ref db h =
    elim (Bool-cases (matched batch_id_of id (has_status_in sent_from_statuses) db.batches)) [
      | inl t ↦ rw t (
          publish_sent-IsReconciled ref _ _ (
            write-IsReconciled (has_status_in sent_from_statuses) (sent_row now ref)
              (sent_row-IsStatusUpdate now ref) id db h))
      | inr t ↦ rw t h
    ]

call_provider-IsReconciled :
    (provider : PayoutProvider) (now : ℕ) (b : SettlementBatch) (db : Ledger)
    → IsReconciled db
    → IsReconciled (call_provider provider now b db).1
unfolding call_provider
call_provider-IsReconciled provider now b db h =
    elim (Option-cases (provider b.merchant_id b.net_payout_cents b.id)) [
      | inl e ↦ rw e h
      | inr (ref, e) ↦ rw e (mark_sent-IsReconciled now b.id (psp_transfer ref) db h)
    ]

execute_read-IsReconciled :
    (provider : PayoutProvider) (now : ℕ) (b : SettlementBatch) (db : Ledger)
    → IsReconciled db
    → IsReconciled (execute_read provider now b db).1
unfolding execute_read
execute_read-IsReconciled provider now b db h =
    elim (Bool-cases (has_status_in (approved ∷ []) b)) [
      | inr t ↦ rw t h
      | inl t ↦ elim (Bool-cases (b.net_payout_cents == 0)) [
        | inl z ↦ rw (t, z) (mark_sent-IsReconciled now b.id no_transfer_zero_net db h)
        | inr z ↦ elim (Bool-cases (is_none b.payout_attempted_at)) [
          | inr a ↦ rw (t, z, a) (call_provider-IsReconciled provider now b db h)
          | inl a ↦ elim (Bool-cases (matched batch_id_of b.id can_stamp db.batches)) [
            | inr m ↦ rw (t, z, a, m) h
            | inl m ↦
                rw (t, z, a, m)
                  (call_provider-IsReconciled provider now b _ (
                    write-IsReconciled can_stamp (stamp_row now) (stamp_row-IsStatusUpdate now) b.id
                      db h))
          ]
        ]
      ]
    ]

recomputed-IsReconciled :
    (around : Surroundings) (id now : ℕ) (new_lines : List PendingSettlementLine) (db db2 : Ledger)
    (b : SettlementBatch)
    → recompute_batch around id now new_lines db ≡ ok (b, db2)
    → IsReconciled db
    → IsReconciled db2
recomputed-IsReconciled around id now new_lines db db2 b e h =
    elim (recompute_batch-IsReconciled around id now new_lines db h) [
      | inl (thrown, f, _) ↦ absurd (err-ok thrown (b, db2) (sym f ∙ e))
      | inr (b3, db3, f, k) ↦
          let results : ◌≡◌ {A = Result Error (SettlementBatch × Ledger)} (ok (b3, db3))
              (ok (b, db2)) =
            sym f ∙ e in
          let same : db3 ≡ db2 = cc in rw (← same) k
    ]

Step-IsReconciled : (db db2 : Ledger) → Step db db2 → IsReconciled db → IsReconciled db2
Step-IsReconciled db db2 (recomputed around id now new_lines {b = b} e) h =
    recomputed-IsReconciled around id now new_lines db db2 b e h
Step-IsReconciled db _ (opened new_id merchant_id day holidays fresh) h =
    open_batch-IsReconciled new_id merchant_id day holidays db fresh h
Step-IsReconciled db _ (approved_by id admin_id) h = approve_guarded-IsReconciled id admin_id db h
Step-IsReconciled db _ (held_by id admin_id) h = admin_hold-IsReconciled id admin_id db h
Step-IsReconciled db _ (settled_by id admin_id now) h =
    admin_mark_settled-IsReconciled id admin_id now db h
Step-IsReconciled db _ (paid_out provider now read) h =
    execute_read-IsReconciled provider now read db h
Step-IsReconciled db db2 (elsewhere e1 e2 e3 e4) h = same-IsReconciled db db2 e1 e2 e3 e4 h

-- Whatever transactions follow on one another from a reconciled ledger, recomputes of any batches,
-- new batches with fresh identifiers, approvals, holds, confirmations and payouts, these with rows
-- read at any earlier time, the ledger stays reconciled.
pub Reaches-IsReconciled : (db db2 : Ledger) → Reaches db db2 → IsReconciled db → IsReconciled db2
Reaches-IsReconciled db db2 start h = h
Reaches-IsReconciled db db3 (step {db2 = db2} r s) h =
    Step-IsReconciled db2 db3 s (Reaches-IsReconciled db db2 r h)
