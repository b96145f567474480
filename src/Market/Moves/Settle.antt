-- ===== src/Market/Moves/Settle.antt =====
-- The fan-out, the settling of payments, the refunds and the sweeper are chains of lawful moves.
use kurtar.Prelude.{
  ℕ, ◌≡◌, refl, true, Option, none, some, List, [], ◌∷◌, ◌==◌, arith, Bool-cases, Option-cases, inl,
  inr,
}
use kurtar.Status.{includes, same}
use kurtar.Status.Reservation.{
  ReservationStatus, machine, pending_payment, confirmed, cancelled_by_merchant, no_show, expired,
}
use kurtar.Market.State.{
  Db, Offer, Reservation, write_reservation, reservation_matched, payment_in, set_payment_status,
  set_status, map_payment, paid, failed, live_statuses, find_offer, Payment,
}
use kurtar.Market.Reservations.Create.{expirable_from}
use kurtar.Market.Fanout.{FanOutStep, move_one, fan_out_one, status_in, cancelled_by_merchant_from}
use kurtar.Market.Settle.{
  settle_tx, settle_found, settle_success, expire_and_release, find_payment, WebhookEvent,
  SettleOutcome, confirmable_from, publish_confirmed,
}
use kurtar.Market.Sweeper.{mark_no_show}
use kurtar.Status.{is_transition_allowed}
use kurtar.Market.State.{PaymentStatus, RefundReason, ActorType}
use kurtar.Market.Refunds.{RefundCall, Faults, refund_for_cancellation}
use kurtar.Market.Refunds.Cases.{refund_cases}
use kurtar.Market.Sweeper.{no_show_from}
use kurtar.Market.Moves.{Moves, same_rows, both}
use kurtar.Market.Moves.Steps.{payment-Moves, status-Moves, freed-Moves, expire-allowed}

merchant-allowed :
    (r : Reservation)
    → includes machine cancelled_by_merchant_from r.status ≡ true
    → is_transition_allowed machine r.status cancelled_by_merchant ≡ true
merchant-allowed r t = ground arith

move_one-Moves :
    (offer_id : ℕ) (s : Reservation) (to : ReservationStatus) (from : List ReservationStatus)
    (step : FanOutStep) (db : Db)
    → ((r : Reservation)
        → includes machine from r.status ≡ true
        → is_transition_allowed machine r.status to ≡ true)
    → Moves db (move_one offer_id s to from step db).1
unfolding move_one
move_one-Moves offer_id s to from step db allowed =
    elim (Bool-cases (reservation_matched s.id (status_in from) db)) [
      | inl m ↦ rw m (freed-Moves db s.id offer_id s.qty to (status_in from) allowed)
      | inr m ↦ rw m (same_rows db db refl)
    ]

pub fan_out_one-Moves :
    (offer_id : ℕ) (s : Reservation) (db : Db) → Moves db (fan_out_one offer_id s db).1
unfolding fan_out_one
fan_out_one-Moves offer_id s db = elim (Option-cases s.payment) [
  | inl e ↦ rw (e, fan_out_one) (same_rows db db refl)
  | inr (p, e) ↦
      let db1 = write_reservation s.id (payment_in live_statuses) (set_payment_status failed) db in
      let m1 = payment-Moves db s.id (payment_in live_statuses) _ in
      elim (Bool-cases (same machine s.status pending_payment)) [
        | inl t ↦
            rw (e, t, fan_out_one)
              (both db db1 _ m1
                (move_one-Moves offer_id s expired expirable_from _ db1 expire-allowed))
        | inr t ↦
            rw (e, t, fan_out_one)
              (both db db1 _ m1 (
                move_one-Moves offer_id s cancelled_by_merchant cancelled_by_merchant_from _ db1
                  merchant-allowed))
      ]
]

publish_confirmed-Moves :
    (r : Reservation) (o : Option Offer) (db : Db) → Moves db (publish_confirmed r o db)
publish_confirmed-Moves r none db = same_rows db db refl
publish_confirmed-Moves r (some o) db = same_rows db (publish_confirmed r (some o) db) refl

abbrev pub OnSome : (Db → Type 0) → Option (SettleOutcome × Db) → Type 0
OnSome P none = Unit
OnSome P (some (outcome, db)) = P db

confirm-allowed :
    (r : Reservation)
    → includes machine confirmable_from r.status ≡ true
    → is_transition_allowed machine r.status confirmed ≡ true
confirm-allowed r t = ground arith

settle_success-Moves :
    (now : ℕ) (r : Reservation) (db : Db) → OnSome (Moves db) (settle_success now r db)
unfolding settle_success
settle_success-Moves now r db =
    let pay = λ (p : Payment). record p { status = paid; paid_at = some now } in
    let db1 = write_reservation r.id (payment_in live_statuses) (map_payment pay) db in
    let db2 = write_reservation r.id (status_in confirmable_from) (set_status confirmed) db1 in
    let m1 = payment-Moves db r.id (payment_in live_statuses) pay in
    let m2 = status-Moves db1 r.id confirmed (status_in confirmable_from) confirm-allowed in
    elim (Bool-cases (reservation_matched r.id (payment_in live_statuses) db)) [
      | inl m ↦ elim (Bool-cases (reservation_matched r.id (status_in confirmable_from) db1)) [
        | inl n ↦
            rw (m, n)
              (both db db1 _ m1
                (both db1 db2 _ m2 (publish_confirmed-Moves r (find_offer r.offer_id db) db2)))
        | inr n ↦ rw (m, n) tt
      ]
      | inr m ↦ rw m (same_rows db db refl)
    ]

expire_and_release-Moves :
    (r : Reservation) (outcome : SettleOutcome) (db : Db)
    → Moves db (expire_and_release r outcome db).1
unfolding expire_and_release
expire_and_release-Moves r outcome db =
    let g = payment_in live_statuses in
    let db1 = write_reservation r.id g (set_payment_status failed) db in
    let m1 = payment-Moves db r.id g _ in
    elim (Bool-cases (reservation_matched r.id g db)) [
      | inl m ↦ elim (Bool-cases (reservation_matched r.id (status_in expirable_from) db1)) [
        | inl n ↦
            rw (m, n)
              (both db db1 _ m1 (
                freed-Moves db1 r.id r.offer_id r.qty expired (status_in expirable_from)
                  expire-allowed))
        | inr n ↦ rw (m, n) m1
      ]
      | inr m ↦ rw m (same_rows db db refl)
    ]

settle_found-Moves :
    (now : ℕ) (event : WebhookEvent) (r : Reservation) (p : Payment) (db : Db)
    → OnSome (Moves db) (settle_found now event r p db)
unfolding settle_found
settle_found-Moves now event r p db = elim (Bool-cases event.is_success) [
  | inl s ↦ elim (Bool-cases (event.total_cents == p.amount_cents)) [
    | inl a ↦ rw (s, a) (settle_success-Moves now r db)
    | inr a ↦ rw (s, a) (expire_and_release-Moves r _ db)
  ]
  | inr s ↦ rw s (expire_and_release-Moves r _ db)
]

pub settle_tx-Moves :
    (now : ℕ) (event : WebhookEvent) (db : Db) → Moves db (settle_tx now event db).1
unfolding settle_tx
settle_tx-Moves now event db =
    elim (Option-cases (find_payment event.merchant_oid db.reservations)) [
      | inl n ↦ rw (n, settle_tx) (same_rows db db refl)
      | inr ((r, p), m) ↦
          let after = settle_found-Moves now event r p db in
          elim (Option-cases (settle_found now event r p db)) [
            | inl e ↦ rw (m, e, settle_tx) (same_rows db db refl)
            | inr ((outcome, db'), e) ↦ rw (m, e, settle_tx) (rw e at after)
          ]
    ]

pub mark_no_show-Moves : (id : ℕ) (db : Db) → Moves db (mark_no_show id db).1
unfolding mark_no_show
mark_no_show-Moves id db = status-Moves db id no_show (status_in no_show_from) (λ r t. ground arith)

pub refund_for_cancellation-Moves :
    (call : RefundCall) (faults : Faults) (id oid amount : ℕ) (reason : RefundReason)
    (by : ActorType) (from : PaymentStatus) (db : Db)
    → Moves db (refund_for_cancellation call faults id oid amount reason by from db).1
refund_for_cancellation-Moves call faults id oid amount reason by from db =
    refund_cases (Moves db) call faults id oid amount reason by from db
      (λ db' refunds m. both db db' _ m (same_rows db' _ refl))
      (λ db' m. both db db' _ m (payment-Moves db' id (payment_in (from ∷ [])) _))
      (same_rows db db refl)
