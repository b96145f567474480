-- ===== src/Market/Fanout.antt =====
-- backend/src/modules/reservations/reservations.service.ts: `cancelAllForOffer`, the transactional
-- part of a merchant's cancellation and of the suspend kill-switch.
use kurtar.Prelude.{
  ℕ, ◌+◌, Bool, ◌&&◌, ◌||◌, none, some, List, [], ◌∷◌, ◌==◌, if◌then◌else◌, length,
}
use kurtar.Status.{same, includes, allowed_from_statuses_for}
use kurtar.Status.Reservation.{
  ReservationStatus, machine, pending_payment, confirmed, expired, cancelled_by_merchant,
}
use kurtar.Market.Rows.{find, write, matched, select}
use kurtar.Market.State.{
  Db, Reservation, write_reservation, reservation_matched, payment_in, live_statuses,
  set_payment_status, set_status, failed,
}
use kurtar.Market.Stock.{release}
use kurtar.Market.Refunds.{RefundItem}
use kurtar.Market.Reservations.Create.{expirable_from}

abbrev pub cancelled_by_merchant_from : List ReservationStatus
cancelled_by_merchant_from = allowed_from_statuses_for machine cancelled_by_merchant

pub record FanOut : Type 0 where
  pub expired_count : ℕ
  pub to_refund : List RefundItem

-- `cancelledCount` of the result.
abbrev pub cancelled_count : FanOut → ℕ
cancelled_count f = length f.to_refund

abbrev pub is_candidate : ℕ → Reservation → Bool
is_candidate offer_id r =
    r.offer_id == offer_id
    && (same machine r.status pending_payment || same machine r.status confirmed)

abbrev pub status_in : List ReservationStatus → Reservation → Bool
status_in statuses r = includes machine statuses r.status

-- What one candidate adds to the result.
pub data FanOutStep : Type 0 where
  skipped expired_one : FanOutStep
  cancelled_one : RefundItem → FanOutStep

-- The guarded transition of one candidate, with its release.
unfoldable pub move_one :
    ℕ → Reservation → ReservationStatus → List ReservationStatus → FanOutStep → Db → FanOutStep × Db
unfolding write matched find release
move_one offer_id r to from step db =
    if reservation_matched r.id (status_in from) db
    then (step, release offer_id r.qty (write_reservation r.id (status_in from) (set_status to) db))
    else (skipped, db)

-- The body of the loop.
unfoldable pub fan_out_one : ℕ → Reservation → Db → FanOutStep × Db
unfolding move_one
fan_out_one offer_id r db = elim r.payment [
  | none ↦ (skipped, db)
  | some p ↦
      let db1 = write_reservation r.id (payment_in live_statuses) (set_payment_status failed) db in
      if same machine r.status pending_payment
      then move_one offer_id r expired expirable_from expired_one db1
      else move_one offer_id r cancelled_by_merchant cancelled_by_merchant_from
          (cancelled_one (record {
            reservation_id = r.id;
            merchant_oid = p.merchant_oid;
            amount_cents = p.amount_cents;
          }))
          db1
]

abbrev pub add_step : FanOutStep → FanOut → FanOut
add_step skipped f = f
add_step expired_one f = record f { expired_count = 1 + f.expired_count }
add_step (cancelled_one item) f = record f { to_refund = item ∷ f.to_refund }

-- The loop. Other transactions commit between its statements: `others id` is what they do to the
-- database before the turn of the candidate `id`, whose row was read before the loop.
unfoldable pub fan_out : (ℕ → Db → Db) → ℕ → List Reservation → Db → FanOut × Db
unfolding fan_out_one
fan_out others offer_id [] db = (record { expired_count = 0; to_refund = [] }, db)
fan_out others offer_id (r ∷ candidates) db =
    let (step, db1) = fan_out_one offer_id r (others r.id db) in
    let (rest, db2) = fan_out others offer_id candidates db1 in (add_step step rest, db2)

unfoldable pub cancel_all_for_offer : (ℕ → Db → Db) → ℕ → Db → FanOut × Db
unfolding fan_out
cancel_all_for_offer others offer_id db =
    fan_out others offer_id (select (is_candidate offer_id) db.reservations) db
