-- ===== src/Market/Conservation/Settle.antt =====
-- payment-settle.service.ts, the refunds and the no-show sweeper keep the stock conserved.
use kurtar.Prelude.{
  ℕ, ◌≡◌, refl, true, Option, none, some, List, [], ◌∷◌, ◌==◌, arith, Bool-cases, Option-cases, inl,
  inr,
}
use kurtar.Status.{includes}
use kurtar.Status.Reservation.{machine, confirmed, no_show, expired}
use kurtar.Market.Rows.{find}
use kurtar.Market.Rows.Laws.{IsUnique}
use kurtar.Market.State.{
  Db, Offer, Reservation, reservation_key, write_reservation, reservation_matched, payment_in,
  set_payment_status, set_status, map_payment, paid, failed, live_statuses, find_offer, Payment,
}
use kurtar.Market.Conservation.{IsConserved, IsSnapshot, Keeps, write-IsConserved}
use kurtar.Market.Conservation.Counters.{release-IsConserved}
use kurtar.Market.Reservations.Create.{expirable_from}
use kurtar.Market.Fanout.{status_in}
use kurtar.Market.Settle.{
  settle_tx, settle_found, settle_success, expire_and_release, find_payment, WebhookEvent,
  SettleOutcome, confirmable_from, publish_confirmed,
}
use kurtar.Market.Sweeper.{mark_no_show, no_show_from}
use kurtar.Market.Conservation.Steps.{payment-IsConserved, payment-IsSnapshot, expire-Frees}
use kurtar.Market.Refunds.{RefundCall, Faults, refund_for_cancellation}
use kurtar.Market.Refunds.Cases.{refund_cases}
use kurtar.Market.State.{RefundReason, ActorType, PaymentStatus}

confirm-Keeps :
    (r : Reservation)
    → includes machine confirmable_from r.status ≡ true
    → Keeps r (set_status confirmed r)
confirm-Keeps r t = ground arith

publish_confirmed-IsConserved :
    (r : Reservation) (o : Option Offer) (db : Db)
    → IsConserved db
    → IsConserved (publish_confirmed r o db)
publish_confirmed-IsConserved r none db c = c
publish_confirmed-IsConserved r (some o) db c = c

abbrev OnSome : (Db → Type 0) → Option (SettleOutcome × Db) → Type 0
OnSome P none = Unit
OnSome P (some (outcome, db)) = P db

settle_success-IsConserved :
    (now : ℕ) (r : Reservation) (db : Db)
    → IsConserved db
    → OnSome IsConserved (settle_success now r db)
unfolding settle_success
settle_success-IsConserved now r db c =
    let pay = λ (p : Payment). record p { status = paid; paid_at = some now } in
    let db1 = write_reservation r.id (payment_in live_statuses) (map_payment pay) db in
    let c1 = payment-IsConserved db r.id (payment_in live_statuses) pay c in
    elim (Bool-cases (reservation_matched r.id (payment_in live_statuses) db)) [
      | inl m ↦ elim (Bool-cases (reservation_matched r.id (status_in confirmable_from) db1)) [
        | inl n ↦
            rw (m, n)
              (publish_confirmed-IsConserved r (find_offer r.offer_id db) _ (
                write-IsConserved db1 r.id (status_in confirmable_from) (set_status confirmed)
                  confirm-Keeps c1))
        | inr n ↦ rw (m, n) tt
      ]
      | inr m ↦ rw m c
    ]

expire_and_release-IsConserved :
    (r : Reservation) (outcome : SettleOutcome) (db : Db)
    → IsSnapshot db r.id r.offer_id r.qty
    → IsConserved db
    → IsConserved (expire_and_release r outcome db).1
unfolding expire_and_release
expire_and_release-IsConserved r outcome db snap c =
    let g = payment_in live_statuses in
    let db1 = write_reservation r.id g (set_payment_status failed) db in
    let c1 = payment-IsConserved db r.id g _ c in
    let snap1 = payment-IsSnapshot db r.id r.offer_id r.qty r.id g _ snap in
    elim (Bool-cases (reservation_matched r.id g db)) [
      | inl m ↦ elim (Bool-cases (reservation_matched r.id (status_in expirable_from) db1)) [
        | inl n ↦
            rw (m, n)
              (release-IsConserved db1 r.id r.offer_id r.qty (status_in expirable_from)
                (set_status expired) expire-Frees snap1 n c1)
        | inr n ↦ rw (m, n) c1
      ]
      | inr m ↦ rw m c
    ]

settle_found-IsConserved :
    (now : ℕ) (event : WebhookEvent) (r : Reservation) (p : Payment) (db : Db)
    → IsSnapshot db r.id r.offer_id r.qty
    → IsConserved db
    → OnSome IsConserved (settle_found now event r p db)
unfolding settle_found
settle_found-IsConserved now event r p db snap c = elim (Bool-cases event.is_success) [
  | inl s ↦ elim (Bool-cases (event.total_cents == p.amount_cents)) [
    | inl a ↦ rw (s, a) (settle_success-IsConserved now r db c)
    | inr a ↦ rw (s, a) (expire_and_release-IsConserved r _ db snap c)
  ]
  | inr s ↦ rw s (expire_and_release-IsConserved r _ db snap c)
]

-- The reservation of a payment that is found by its merchant oid is a row of the table.
pub find_payment-found :
    (oid : ℕ) (rs : List Reservation) (r : Reservation) (p : Payment)
    → IsUnique reservation_key rs
    → find_payment oid rs ≡ some (r, p)
    → (find reservation_key r.id rs ≡ some r) × (r.payment ≡ some p) × (p.merchant_oid ≡ oid)
unfolding find_payment find
find_payment-found oid [] r p u e = cc
find_payment-found oid (x ∷ rs) r p u e = elim (Option-cases x.payment) [
  | inl n ↦
      let e' : find_payment oid rs ≡ some (r, p) = rw (n, find_payment) at e in
      let (found, has, same_oid) = find_payment-found oid rs r p u.1 e' in
      (ground (arith, u.0), has, same_oid)
  | inr (q, m) ↦ elim (Bool-cases (q.merchant_oid == oid)) [
    | inl h ↦
        let e' : ◌≡◌ {A = Option (Reservation × Payment)} (some (x, q)) (some (r, p)) =
          rw (m, h, find_payment) at e in
        (ground arith, ground arith, ground arith)
    | inr h ↦
        let e' : find_payment oid rs ≡ some (r, p) = rw (m, h, find_payment) at e in
        let (found, has, same_oid) = find_payment-found oid rs r p u.1 e' in
        (ground (arith, u.0), has, same_oid)
  ]
]

pub settle_tx-IsConserved :
    (now : ℕ) (event : WebhookEvent) (db : Db)
    → IsUnique reservation_key db.reservations
    → IsConserved db
    → IsConserved (settle_tx now event db).1
unfolding settle_tx
settle_tx-IsConserved now event db u c =
    elim (Option-cases (find_payment event.merchant_oid db.reservations)) [
      | inl n ↦ rw (n, settle_tx) c
      | inr ((r, p), m) ↦
          let (found, _, _) = find_payment-found event.merchant_oid db.reservations r p u m in
          let after = settle_found-IsConserved now event r p db (r, found, refl, refl) c in
          elim (Option-cases (settle_found now event r p db)) [
            | inl e ↦ rw (m, e, settle_tx) c
            | inr ((outcome, db'), e) ↦ rw (m, e, settle_tx) (rw e at after)
          ]
    ]

pub mark_no_show-IsConserved :
    (id : ℕ) (db : Db) → IsConserved db → IsConserved (mark_no_show id db).1
unfolding mark_no_show
mark_no_show-IsConserved id db =
    write-IsConserved db id (status_in no_show_from) (set_status no_show) (λ r t. ground arith)

pub refund_for_cancellation-IsConserved :
    (call : RefundCall) (faults : Faults) (id oid amount : ℕ) (reason : RefundReason)
    (by : ActorType) (from : PaymentStatus) (db : Db)
    → IsConserved db
    → IsConserved (refund_for_cancellation call faults id oid amount reason by from db).1
unfolding refund_for_cancellation
refund_for_cancellation-IsConserved call faults id oid amount reason by from db =
    refund_cases IsConserved call faults id oid amount reason by from db (λ db' refunds c. c)
      (λ db'. payment-IsConserved db' id (payment_in (from ∷ [])) _)
