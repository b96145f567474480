-- ===== src/Market/Settle.antt =====
-- backend/src/modules/payments/payment-settle.service.ts: a webhook delivery, or an event that the
-- sweeper makes up, settles a payment and its reservation.
pub mod Replay
use kurtar.Prelude.{ℕ, Bool, Option, none, some, List, [], ◌∷◌, ◌==◌, if◌then◌else◌}
use kurtar.Status.{allowed_from_statuses_for}
use kurtar.Status.Reservation.{ReservationStatus, machine, confirmed, expired}
use kurtar.Market.Rows.{find, write, matched, any}
use kurtar.Market.State.{
  Db, Offer, Reservation, Payment, payment_code, Event, find_reservation, find_offer,
  write_reservation, reservation_matched, payment_in, live_statuses, set_payment_status, set_status,
  map_payment, paid, failed, reservation_confirmed,
}
use kurtar.Market.Stock.{release}
use kurtar.Market.Reservations.Redeem.{publish}
use kurtar.Market.Reservations.Create.{expirable_from}
use kurtar.Market.Fanout.{status_in}

pub record WebhookEvent : Type 0 where
  pub merchant_oid : ℕ
  pub is_success : Bool
  pub total_cents : ℕ
  pub external_event_id : ℕ

pub data SettleOutcome : Type 0 where
  confirmed_now expired_now amount_mismatch_quarantined duplicate : SettleOutcome
  unknown_merchant_oid already_terminal charged_after_failed orphaned_success : SettleOutcome

abbrev pub confirmable_from : List ReservationStatus
confirmable_from = allowed_from_statuses_for machine confirmed

-- `payment.findUnique({ where: { merchantOid }, include: { reservation } })`.
unfoldable pub find_payment : ℕ → List Reservation → Option (Reservation × Payment)
find_payment oid [] = none
find_payment oid (r ∷ rs) = elim r.payment [
  | none ↦ find_payment oid rs
  | some p ↦ if p.merchant_oid == oid then some (r, p) else find_payment oid rs
]

-- The payment's status when the guarded update did not match.
abbrev pub missed_success : Option Reservation → SettleOutcome
missed_success none = already_terminal
missed_success (some r) = elim r.payment [
  | none ↦ already_terminal
  | some p ↦
      if payment_code p.status == payment_code failed
      then charged_after_failed
      else already_terminal
]

abbrev pub confirmed_event : Reservation → Offer → Event
confirmed_event r o =
    reservation_confirmed r.id r.user_id r.store_id r.offer_id r.code o.pickup_start_at
      o.pickup_end_at

abbrev pub publish_confirmed : Reservation → Option Offer → Db → Db
publish_confirmed r none db = db
publish_confirmed r (some o) db = publish (confirmed_event r o) db

-- `settleSuccess`. `none` is the `SettleRollback` with `orphaned_success`.
unfoldable pub settle_success : ℕ → Reservation → Db → Option (SettleOutcome × Db)
unfolding write matched find
settle_success now r db =
    if reservation_matched r.id (payment_in live_statuses) db
    then (let db1 =
          write_reservation r.id (payment_in live_statuses)
            (map_payment (λ p. record p { status = paid; paid_at = some now })) db in
        if reservation_matched r.id (status_in confirmable_from) db1
        then some (
          confirmed_now,
          publish_confirmed r (find_offer r.offer_id db)
              (write_reservation r.id (status_in confirmable_from) (set_status confirmed) db1),
        )
        else none)
    else some (missed_success (find_reservation r.id db), db)

-- `expireAndRelease`, with the outcome to report.
unfoldable pub expire_and_release : Reservation → SettleOutcome → Db → SettleOutcome × Db
unfolding write matched find release
expire_and_release r outcome db =
    if reservation_matched r.id (payment_in live_statuses) db
    then (let db1 =
          write_reservation r.id (payment_in live_statuses) (set_payment_status failed) db in
        if reservation_matched r.id (status_in expirable_from) db1
        then (
          outcome,
          release r.offer_id r.qty
              (write_reservation r.id (status_in expirable_from) (set_status expired) db1),
        )
        else (outcome, db1))
    else (already_terminal, db)

-- The body of the transaction, over the payment that it read.
unfoldable pub settle_found :
    ℕ → WebhookEvent → Reservation → Payment → Db → Option (SettleOutcome × Db)
unfolding settle_success expire_and_release
settle_found now event r p db =
    if event.is_success
    then (if event.total_cents == p.amount_cents
        then settle_success now r db
        else some (expire_and_release r amount_mismatch_quarantined db))
    else some (expire_and_release r expired_now db)

-- The transaction: a rollback leaves the database, and reports `orphaned_success`.
unfoldable pub settle_tx : ℕ → WebhookEvent → Db → SettleOutcome × Db
unfolding find_payment settle_found
settle_tx now event db = elim (find_payment event.merchant_oid db.reservations) [
  | none ↦ (unknown_merchant_oid, db)
  | some (r, p) ↦ elim (settle_found now event r p db) [
    | none ↦ (orphaned_success, db)
    | some result ↦ result
  ]
]

-- The whole method: the event log first, as a statement of its own.
unfoldable pub settle : ℕ → WebhookEvent → Db → SettleOutcome × Db
unfolding settle_tx
settle now event db =
    if any (λ e. e == event.external_event_id) db.webhook_events
    then (duplicate, db)
    else settle_tx now event
        (record db { webhook_events = event.external_event_id ∷ db.webhook_events })
