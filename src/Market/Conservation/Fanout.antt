-- ===== src/Market/Conservation/Fanout.antt =====
-- reservations.service.ts, `cancelAllForOffer`: each turn of the fan-out keeps the stock conserved,
-- however old the row that it read.
use kurtar.Prelude.{ℕ, ◌≡◌, true, List, arith, Bool-cases, Option-cases, inl, inr}
use kurtar.Status.{includes, same}
use kurtar.Status.Reservation.{
  ReservationStatus, machine, pending_payment, cancelled_by_merchant, expired,
}
use kurtar.Market.State.{
  Db, Reservation, write_reservation, reservation_matched, payment_in, set_payment_status,
  set_status, failed, live_statuses,
}
use kurtar.Market.Conservation.{IsConserved, IsSnapshot}
use kurtar.Market.Conservation.Counters.{Frees, release-IsConserved}
use kurtar.Market.Reservations.Create.{expirable_from}
use kurtar.Market.Fanout.{FanOutStep, move_one, fan_out_one, status_in, cancelled_by_merchant_from}
use kurtar.Market.Conservation.Steps.{payment-IsConserved, payment-IsSnapshot, expire-Frees}

merchant-Frees :
    (r : Reservation)
    → includes machine cancelled_by_merchant_from r.status ≡ true
    → Frees r (set_status cancelled_by_merchant r)
merchant-Frees r t = ground arith

move_one-IsConserved :
    (offer_id : ℕ) (s : Reservation) (to : ReservationStatus) (from : List ReservationStatus)
    (step : FanOutStep) (db : Db)
    → ((r : Reservation) → includes machine from r.status ≡ true → Frees r (set_status to r))
    → IsSnapshot db s.id offer_id s.qty
    → IsConserved db
    → IsConserved (move_one offer_id s to from step db).1
unfolding move_one
move_one-IsConserved offer_id s to from step db frees snap c =
    elim (Bool-cases (reservation_matched s.id (status_in from) db)) [
      | inl m ↦ rw m (
          release-IsConserved db s.id offer_id s.qty (status_in from) (set_status to) frees snap m
            c)
      | inr m ↦ rw m c
    ]

abbrev paid_off : Reservation → Db → Db
paid_off s db = write_reservation s.id (payment_in live_statuses) (set_payment_status failed) db

pub fan_out_one-IsConserved :
    (offer_id : ℕ) (s : Reservation) (db : Db)
    → IsSnapshot db s.id offer_id s.qty
    → IsConserved db
    → IsConserved (fan_out_one offer_id s db).1
unfolding fan_out_one
fan_out_one-IsConserved offer_id s db snap c = elim (Option-cases s.payment) [
  | inl e ↦ rw (e, fan_out_one) c
  | inr (p, e) ↦
      let snap1 =
        payment-IsSnapshot db s.id offer_id s.qty s.id (payment_in live_statuses) _ snap in
      let c1 = payment-IsConserved db s.id (payment_in live_statuses) _ c in
      elim (Bool-cases (same machine s.status pending_payment)) [
        | inl t ↦
            rw (e, t, fan_out_one)
              (move_one-IsConserved offer_id s expired expirable_from _ (paid_off s db) expire-Frees
                snap1 c1)
        | inr t ↦
            rw (e, t, fan_out_one)
              (move_one-IsConserved offer_id s cancelled_by_merchant cancelled_by_merchant_from _
                (paid_off s db) merchant-Frees snap1 c1)
      ]
]
