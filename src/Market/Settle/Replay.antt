-- ===== src/Market/Settle/Replay.antt =====
-- payment-settle.service.ts: a delivery that is repeated is recognised.
use kurtar.Prelude.{
  ℕ, ◌≡◌, refl, ap, ◌∙◌, true, Option, none, some, ◌∷◌, ◌==◌, ==_refl, Bool-cases, Option-cases,
  inl, inr,
}
use kurtar.Status.Reservation.{confirmed}
use kurtar.Market.Rows.{any}
use kurtar.Market.State.{
  Db, Offer, Payment, Reservation, reservation_matched, write_reservation, payment_in,
  live_statuses, map_payment, set_payment_status, set_status, paid, failed, find_offer,
}
use kurtar.Market.Stock.{release}
use kurtar.Market.Fanout.{status_in}
use kurtar.Market.Reservations.Create.{expirable_from}
use kurtar.Market.Settle.{
  WebhookEvent, SettleOutcome, duplicate, confirmable_from, find_payment, publish_confirmed,
  settle_success, expire_and_release, settle_found, settle_tx, settle,
}

abbrev Logged : Db → Option (SettleOutcome × Db) → Type 0
Logged db none = Unit
Logged db (some (outcome, db')) = db'.webhook_events ≡ db.webhook_events

publish_confirmed-log :
    (r : Reservation) (o : Option Offer) (db : Db)
    → (publish_confirmed r o db).webhook_events ≡ db.webhook_events
publish_confirmed-log r none db = refl
publish_confirmed-log r (some o) db = refl

settle_success-Logged : (now : ℕ) (r : Reservation) (db : Db) → Logged db (settle_success now r db)
unfolding settle_success
settle_success-Logged now r db =
    let pay = λ (p : Payment). record p { status = paid; paid_at = some now } in
    let db1 = write_reservation r.id (payment_in live_statuses) (map_payment pay) db in
    let db2 = write_reservation r.id (status_in confirmable_from) (set_status confirmed) db1 in
    elim (Bool-cases (reservation_matched r.id (payment_in live_statuses) db)) [
      | inl m ↦ elim (Bool-cases (reservation_matched r.id (status_in confirmable_from) db1)) [
        | inl n ↦ rw (m, n) (publish_confirmed-log r (find_offer r.offer_id db) db2)
        | inr n ↦ rw (m, n) tt
      ]
      | inr m ↦ rw m refl
    ]

expire_and_release-Logged :
    (r : Reservation) (outcome : SettleOutcome) (db : Db)
    → (expire_and_release r outcome db).1.webhook_events ≡ db.webhook_events
unfolding expire_and_release release
expire_and_release-Logged r outcome db =
    let g = payment_in live_statuses in
    let db1 = write_reservation r.id g (set_payment_status failed) db in
    elim (Bool-cases (reservation_matched r.id g db)) [
      | inl m ↦ elim (Bool-cases (reservation_matched r.id (status_in expirable_from) db1)) [
        | inl n ↦ rw (m, n)
        | inr n ↦ rw (m, n)
      ]
      | inr m ↦ rw m
    ]

settle_found-Logged :
    (now : ℕ) (event : WebhookEvent) (r : Reservation) (p : Payment) (db : Db)
    → Logged db (settle_found now event r p db)
unfolding settle_found
settle_found-Logged now event r p db = elim (Bool-cases event.is_success) [
  | inl s ↦ elim (Bool-cases (event.total_cents == p.amount_cents)) [
    | inl a ↦ rw (s, a) (settle_success-Logged now r db)
    | inr a ↦ rw (s, a) (expire_and_release-Logged r _ db)
  ]
  | inr s ↦ rw s (expire_and_release-Logged r _ db)
]

settle_tx-log :
    (now : ℕ) (event : WebhookEvent) (db : Db)
    → (settle_tx now event db).1.webhook_events ≡ db.webhook_events
unfolding settle_tx
settle_tx-log now event db = elim (Option-cases (find_payment event.merchant_oid db.reservations)) [
  | inl n ↦ rw (n, settle_tx) refl
  | inr ((r, p), m) ↦
      let after = settle_found-Logged now event r p db in
      elim (Option-cases (settle_found now event r p db)) [
        | inl e ↦ rw (m, e, settle_tx) refl
        | inr ((outcome, db'), e) ↦ rw (m, e, settle_tx) (rw e at after)
      ]
]

settle-log :
    (now : ℕ) (event : WebhookEvent) (db : Db)
    → any (λ e. e == event.external_event_id) (settle now event db).1.webhook_events ≡ true
unfolding settle
settle-log now event db =
    elim (Bool-cases (any (λ e. e == event.external_event_id) db.webhook_events)) [
      | inl d ↦ rw d d
      | inr d ↦
          let logged =
            settle_tx-log now event
              (record db { webhook_events = event.external_event_id ∷ db.webhook_events }) in
          rw d (rw logged (rw (==_refl event.external_event_id)))
    ]

settled-again :
    (now : ℕ) (event : WebhookEvent) (db : Db)
    → any (λ e. e == event.external_event_id) db.webhook_events ≡ true
    → settle now event db ≡ (duplicate, db)
unfolding settle
settled-again now event db d = rw d

-- A delivery that comes right after one with the same external identifier, whatever both of them say
-- and whatever the first one did, is reported as a duplicate and changes nothing.
pub settle-replay :
    (now now' : ℕ) (event event' : WebhookEvent) (db : Db)
    → event'.external_event_id ≡ event.external_event_id
    → settle now' event' (settle now event db).1 ≡ (duplicate, (settle now event db).1)
settle-replay now now' event event' db same_id = settled-again now' event' (settle now event db).1 (
    ap (λ i. any (λ e. e == i) (settle now event db).1.webhook_events) same_id
    ∙ settle-log now event db)
