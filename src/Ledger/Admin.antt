-- ===== src/Ledger/Admin.antt =====
-- backend/src/modules/settlements/settlements.service.ts: the admin's actions on a batch. Each has
-- the ledger that it leaves and the error that it throws, if any.
use kurtar.Prelude.{
  ℕ, Bool, true, false, Option, none, some, List, [], ◌∷◌, if◌then◌else◌, Result, ok, err,
}
use kurtar.Status.{allowed_from_statuses_for}
use kurtar.Status.Settlement.{SettlementStatus, machine, calculated, approved, held, settled}
use kurtar.Market.Rows.{find, write, matched}
use kurtar.Ledger.State.{
  SettlementBatch, Ledger, Surroundings, AuditAction, approved_batch, held_batch, settled_batch,
  bank_details_viewed, by_admin, Error, batch_not_found, not_approvable, not_holdable,
  payout_already_attempted, not_settleable, find_batch, batch_id_of, has_status_in, is_none,
}
use kurtar.Ledger.Recompute.{recompute_batch}

abbrev pub approved_from_statuses : List SettlementStatus
approved_from_statuses = allowed_from_statuses_for machine approved

abbrev pub held_from_statuses : List SettlementStatus
held_from_statuses = allowed_from_statuses_for machine held

abbrev pub settled_from_statuses : List SettlementStatus
settled_from_statuses = allowed_from_statuses_for machine settled

abbrev pub audited : ℕ → AuditAction → ℕ → Ledger → Ledger
audited admin_id action id db = record db {
  audit_log = record { actor_id = admin_id; action = action; entity_id = id } ∷ db.audit_log;
}

-- A guarded update of a batch with its audit row, which is written only if the update matched.
unfoldable pub guarded_update :
    ℕ
    → AuditAction
    → ℕ
    → (SettlementBatch → Bool)
    → (SettlementBatch → SettlementBatch)
    → Ledger
    → Bool × Ledger
unfolding matched write find
guarded_update admin_id action id guard data_ db =
    if matched batch_id_of id guard db.batches
    then (
      true,
      audited admin_id action id
          (record db { batches = write batch_id_of id guard data_ db.batches }),
    )
    else (false, db)

-- `adminGet`, whose read of the bank details is recorded.
unfoldable pub admin_get : ℕ → ℕ → Ledger → Ledger × Option Error
unfolding find_batch
admin_get id admin_id db = elim (find_batch id db.batches) [
  | none ↦ (db, some batch_not_found)
  | some b ↦ (audited admin_id bank_details_viewed id db, none)
]

abbrev pub approve_row : SettlementBatch → SettlementBatch
approve_row b = record b { status = approved }

-- The second transaction of `adminApprove`.
unfoldable pub approve_guarded : ℕ → ℕ → Ledger → Ledger × Option Error
unfolding guarded_update admin_get
approve_guarded id admin_id db =
    let (done, db1) =
      guarded_update admin_id approved_batch id (has_status_in approved_from_statuses) approve_row
        db in
    if done then admin_get id admin_id db1 else (db1, some not_approvable)

-- It runs only if the recompute left the batch calculated.
unfoldable pub approve_recomputed :
    ℕ → ℕ → Ledger → Result Error (SettlementBatch × Ledger) → Ledger × Option Error
unfolding approve_guarded
approve_recomputed id admin_id db (err e) = (db, some e)
approve_recomputed id admin_id db (ok (b, db1)) =
    if has_status_in (calculated ∷ []) b
    then approve_guarded id admin_id db1
    else (db1, some not_approvable)

unfoldable pub admin_approve : Surroundings → ℕ → ℕ → ℕ → Ledger → Ledger × Option Error
unfolding find_batch approve_recomputed recompute_batch
admin_approve around id admin_id now db = elim (find_batch id db.batches) [
  | none ↦ (db, some batch_not_found)
  | some b ↦
      if has_status_in approved_from_statuses b
      then approve_recomputed id admin_id db (recompute_batch around id now [] db)
      else (db, some not_approvable)
]

abbrev pub can_hold : SettlementBatch → Bool
can_hold b = if has_status_in held_from_statuses b then is_none b.payout_attempted_at else false

abbrev pub hold_row : SettlementBatch → SettlementBatch
hold_row b = record b { status = held; hold_reason = some by_admin }

-- The error of a hold that matched nothing.
abbrev pub hold_error : Option SettlementBatch → Error
hold_error none = batch_not_found
hold_error (some b) =
    if is_none b.payout_attempted_at then not_holdable else payout_already_attempted

unfoldable pub admin_hold : ℕ → ℕ → Ledger → Ledger × Option Error
unfolding guarded_update admin_get find_batch
admin_hold id admin_id db =
    let (done, db1) = guarded_update admin_id held_batch id can_hold hold_row db in
    if done then admin_get id admin_id db1 else (db1, some (hold_error (find_batch id db1.batches)))

abbrev pub settle_row : ℕ → SettlementBatch → SettlementBatch
settle_row now b = record b { status = settled; settled_at = some now }

abbrev pub settle_error : Option SettlementBatch → Error
settle_error none = batch_not_found
settle_error (some b) = not_settleable

unfoldable pub admin_mark_settled : ℕ → ℕ → ℕ → Ledger → Ledger × Option Error
unfolding guarded_update admin_get find_batch
admin_mark_settled id admin_id now db =
    let (done, db1) =
      guarded_update admin_id settled_batch id (has_status_in settled_from_statuses)
        (settle_row now) db in
    if done
    then admin_get id admin_id db1
    else (db1, some (settle_error (find_batch id db1.batches)))
