-- ===== src/Market/Reservations/Cancel/Outcomes.antt =====
-- reservations.service.ts, `cancel`: what the transaction answers, in every case.
use kurtar.Prelude.{
  ℕ, ◌≡◌, refl, ◌∙◌, inl, inr, Bool, true, false, ◌&&◌, ◌||◌, some, ltb, ok, err, arith, Bool-cases,
  if◌then◌else◌,
}
use kurtar.Status.{same}
use kurtar.Status.Reservation.{
  ReservationStatus, machine, confirmed, pending_payment, cancelled_by_user,
}
use kurtar.Market.Rows.{write}
use kurtar.Market.Rows.Laws.{updated}
use kurtar.Market.Rows.Compose.{matched-write, write-write}
use kurtar.Market.State.{
  Db, Reservation, reservation_key, find_reservation, write_reservation, reservation_matched,
  payment_in, live_statuses, set_payment_status, set_status, failed, not_cancellable,
}
use kurtar.Market.Stock.{release}
use kurtar.Market.Reservations.Cancel.{cancel_tx, cancel_from, can_cancel}

-- The row may still be cancelled: it is pending or confirmed, before its deadline.
abbrev pub is_cancellable : ℕ → Reservation → Bool
is_cancellable now r =
    (same machine r.status pending_payment || same machine r.status confirmed)
    && ltb now r.cancel_deadline_at

-- What it becomes: cancelled, with a live payment failed.
abbrev pub cancelled : Reservation → Reservation
cancelled r =
    set_status cancelled_by_user (updated (payment_in live_statuses) (set_payment_status failed) r)

-- The cancelled database: the row as said, and its bags given back.
abbrev pub cancelled_db : Reservation → Db → Db
cancelled_db snapshot db =
    release snapshot.offer_id snapshot.qty (write_reservation snapshot.id (λ _. true) cancelled db)

module _ (now : ℕ) (s x : Reservation) (db : Db) (e : find_reservation s.id db ≡ some x) where
  abbrev failed_db : Db
  failed_db = write_reservation s.id (payment_in live_statuses) (set_payment_status failed) db

  attempt-matched :
      (from : ReservationStatus)
      → reservation_matched s.id (can_cancel from now) failed_db
        ≡ (same machine x.status from && ltb now x.cancel_deadline_at)
  attempt-matched from =
      matched-write reservation_key s.id (payment_in live_statuses) (can_cancel from now)
        (set_payment_status failed) db.reservations x (λ _. refl) e
      ∙ ground arith

  attempt-writes :
      (from : ReservationStatus)
      → (same machine x.status from && ltb now x.cancel_deadline_at) ≡ true
      → write reservation_key s.id
          (can_cancel from now)
          (set_status cancelled_by_user)
          failed_db.reservations
        ≡ write reservation_key s.id (λ _. true) cancelled db.reservations
  attempt-writes from t =
      write-write reservation_key s.id (payment_in live_statuses) (can_cancel from now)
        (set_payment_status failed) (set_status cancelled_by_user) cancelled db.reservations x
        (λ _. refl) e (ground arith)

  -- When the reservation is in the table, the transaction cancels it if it is pending or confirmed
  -- and its deadline has not come, failing a live payment and giving the bags back in the same
  -- step, and says whether it was confirmed; in every other case it throws, and changes nothing.
  pub cancel_tx-decides : cancel_tx s now db ≡ (
      if is_cancellable now x
      then ok (same machine x.status confirmed, cancelled_db s db)
      else err not_cancellable)
  unfolding cancel_tx cancel_from release
  cancel_tx-decides =
      let first = attempt-matched pending_payment in
      let second = attempt-matched confirmed in
      elim (Bool-cases (same machine x.status pending_payment && ltb now x.cancel_deadline_at)) [
        | inl t ↦
            let c : is_cancellable now x ≡ true = ground arith in
            let was : same machine x.status confirmed ≡ false = ground arith in
            rw (first, t, c, was, attempt-writes pending_payment t)
        | inr t ↦
            elim (Bool-cases (same machine x.status confirmed && ltb now x.cancel_deadline_at)) [
              | inl u ↦
                  let c : is_cancellable now x ≡ true = ground arith in
                  let was : same machine x.status confirmed ≡ true = ground arith in
                  rw (first, t, second, u, c, was, attempt-writes confirmed u)
              | inr u ↦
                  let c : is_cancellable now x ≡ false = ground arith in rw (first, t, second, u, c)
            ]
      ]
