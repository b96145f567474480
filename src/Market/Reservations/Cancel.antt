-- ===== src/Market/Reservations/Cancel.antt =====
-- reservations.service.ts: `cancel`.
pub mod Whole
pub mod Outcomes
use kurtar.Prelude.{
  ℕ, Bool, true, false, not, ◌&&◌, Option, none, some, List, [], ◌∷◌, ltb, ◌==◌, if◌then◌else◌,
  Result, ok, err, ◌>>=◌, ◌>>◌, guard,
}
use kurtar.Status.{same, allowed_from_statuses_for}
use kurtar.Status.Reservation.{ReservationStatus, machine, confirmed, cancelled_by_user}
use kurtar.Market.Rows.{find, write, matched}
use kurtar.Market.State.{
  Db, Reservation, Payment, Error, find_reservation, write_reservation, reservation_matched,
  payment_in, live_statuses, set_payment_status, set_status, failed, paid, consumer, user_cancel,
  reservation_not_found, not_owner, not_cancellable, no_payment_row,
}
use kurtar.Market.Stock.{release}
use kurtar.Market.Refunds.{
  RefundCall, Faults, RefundOutcome, RefundRequest, refund_for_cancellation,
}
use kurtar.Market.Reservations.{transaction}

abbrev pub cancellable_from : List ReservationStatus
cancellable_from = allowed_from_statuses_for machine cancelled_by_user

-- The reads and checks before the transaction. The snapshot's status is not used below.
unfoldable pub cancel_read : ℕ → ℕ → Db → Result Error (Reservation × Payment)
unfolding find
cancel_read user_id id db = elim (find_reservation id db) [
  | none ↦ err reservation_not_found
  | some r ↦
      if r.user_id == user_id
      then elim r.payment [ none ↦ err no_payment_row | some p ↦ ok (r, p) ]
      else err not_owner
]

abbrev pub can_cancel : ReservationStatus → ℕ → Reservation → Bool
can_cancel from now r = same machine r.status from && ltb now r.cancel_deadline_at

-- The loop over `CANCELLABLE_FROM`: the status that matched first, and the database after it.
unfoldable pub cancel_from : List ReservationStatus → ℕ → ℕ → Db → Option ReservationStatus × Db
unfolding write matched find
cancel_from [] id now db = (none, db)
cancel_from (from ∷ statuses) id now db =
    if reservation_matched id (can_cancel from now) db
    then (some from, write_reservation id (can_cancel from now) (set_status cancelled_by_user) db)
    else cancel_from statuses id now db

abbrev pub finish_cancel : Reservation → Option ReservationStatus × Db → Result Error (Bool × Db)
finish_cancel snapshot (none, db) = err not_cancellable
finish_cancel snapshot (some from, db) =
    ok (same machine from confirmed, release snapshot.offer_id snapshot.qty db)

-- The transaction: whether the reservation that it cancelled was confirmed.
unfoldable pub cancel_tx : Reservation → ℕ → Db → Result Error (Bool × Db)
unfolding cancel_from release
cancel_tx snapshot now db = finish_cancel snapshot (
    cancel_from cancellable_from snapshot.id now
      (write_reservation snapshot.id (payment_in live_statuses) (set_payment_status failed) db))

unfoldable pub refund_if : Bool → RefundCall → Faults → ℕ → Payment → Db → List RefundRequest × Db
refund_if true call faults id p db =
    let ((_, requests), db1) =
      refund_for_cancellation call faults id p.merchant_oid p.amount_cents user_cancel consumer paid
        db in
    (requests, db1)
refund_if false call faults id p db = ([], db)

-- The whole method, when nothing runs in between, with the calls of the provider that it made.
unfoldable pub cancel :
    RefundCall
    → Faults
    → ℕ
    → ℕ
    → ℕ
    → Db
    → (Result Error ReservationStatus × List RefundRequest) × Db
unfolding cancel_read cancel_tx refund_if
cancel call faults user_id id now db = elim (cancel_read user_id id db) [
  | err e ↦ ((err e, []), db)
  | ok (snapshot, payment) ↦ elim (cancel_tx snapshot now db) [
    | err e ↦ ((err e, []), db)
    | ok (was_confirmed, db1) ↦
        let (requests, db2) = refund_if was_confirmed call faults id payment db1 in
        ((ok cancelled_by_user, requests), db2)
  ]
]
