-- ===== src/Market/Coherence/Settle.antt =====
-- payment-settle.service.ts keeps reservations and payments coherent, and
-- a settlement never finds a paid payment without a reservation to confirm.
use kurtar.Prelude.{
  ℕ, ◌≡◌, true, Option, none, some, ◌==◌, arith, Bool-cases, Option-cases, inl, inr,
}
use kurtar.Status.Reservation.{confirmed, expired}
use kurtar.Market.State.{
  Db, Offer, Reservation, reservation_matched, payment_in, set_status, map_payment, paid,
  live_statuses, find_reservation, find_offer, Payment,
}
use kurtar.Market.Stock.{release}
use kurtar.Market.Reservations.Create.{expirable_from}
use kurtar.Market.Fanout.{status_in}
use kurtar.Market.Settle.{
  settle_tx, settle_found, settle_success, expire_and_release, find_payment, WebhookEvent,
  SettleOutcome, confirmable_from, publish_confirmed, missed_success,
}
use kurtar.Prelude.{◌≢◌}
use kurtar.Market.Rows.Laws.{updated}
use kurtar.Market.Coherence.{IsCoherent, AllCoherent}
use kurtar.Market.Coherence.Steps.{
  two_writes-AllCoherent, always_matched, live_forces, live_expires, fail,
}

abbrev pub pay : ℕ → Payment → Payment
pay now p = record p { status = paid; paid_at = some now }

abbrev pub pays_row : ℕ → Reservation → Reservation
pays_row now x = updated (payment_in live_statuses) (map_payment (pay now)) x

pub pay_forces :
    (now : ℕ) (x : Reservation)
    → IsCoherent x
    → payment_in live_statuses x ≡ true
    → status_in confirmable_from (pays_row now x) ≡ true
pay_forces now x c t = ground arith

pay_confirms :
    (now : ℕ) (x : Reservation)
    → IsCoherent x
    → status_in confirmable_from (pays_row now x) ≡ true
    → IsCoherent (set_status confirmed (pays_row now x))
pay_confirms now x c t = ground arith

publish_confirmed-AllCoherent :
    (r : Reservation) (o : Option Offer) (db : Db)
    → AllCoherent db
    → AllCoherent (publish_confirmed r o db)
publish_confirmed-AllCoherent r none db a = a
publish_confirmed-AllCoherent r (some o) db a = a

-- What settling does to a coherent database.
abbrev Settles : Option (SettleOutcome × Db) → Type 0
Settles none = ⊥
Settles (some (outcome, db)) = AllCoherent db × (outcome ≢ SettleOutcome.orphaned_success)

missed_success-ne : (o : Option Reservation) → missed_success o ≢ SettleOutcome.orphaned_success
missed_success-ne o = ground arith

settle_success-Settles :
    (now : ℕ) (r : Reservation) (db : Db) → AllCoherent db → Settles (settle_success now r db)
unfolding settle_success
settle_success-Settles now r db a =
    let g = payment_in live_statuses in
    elim (Bool-cases (reservation_matched r.id g db)) [
      | inl m ↦
          let n =
            always_matched db r.id g (status_in confirmable_from) (pay now) confirmed a m
              (pay_forces now) in
          rw (m, n)
            (
              publish_confirmed-AllCoherent r (find_offer r.offer_id db) _ (
                  two_writes-AllCoherent db r.id g (status_in confirmable_from) (pay now) confirmed
                    a n λ x _ v t. pay_confirms now x v t),
              (λ e. cc),
            )
      | inr m ↦ rw m (a, missed_success-ne (find_reservation r.id db))
    ]

expire_and_release-Settles :
    (r : Reservation) (outcome : SettleOutcome) (db : Db)
    → outcome ≢ SettleOutcome.orphaned_success
    → AllCoherent db
    → Settles (some (expire_and_release r outcome db))
unfolding expire_and_release release
expire_and_release-Settles r outcome db ne a =
    let g = payment_in live_statuses in
    elim (Bool-cases (reservation_matched r.id g db)) [
      | inl m ↦
          let n =
            always_matched db r.id g (status_in expirable_from) fail expired a m live_forces in
          rw (m, n)
            (
              two_writes-AllCoherent db r.id g (status_in expirable_from) fail expired a n
                  (λ x _ v t. live_expires x v t),
              ne,
            )
      | inr m ↦ rw m (a, (λ e. cc))
    ]

settle_found-Settles :
    (now : ℕ) (event : WebhookEvent) (r : Reservation) (p : Payment) (db : Db)
    → AllCoherent db
    → Settles (settle_found now event r p db)
unfolding settle_found
settle_found-Settles now event r p db a = elim (Bool-cases event.is_success) [
  | inl s ↦ elim (Bool-cases (event.total_cents == p.amount_cents)) [
    | inl e ↦ rw (s, e) (settle_success-Settles now r db a)
    | inr e ↦ rw (s, e) (expire_and_release-Settles r _ db (λ h. cc) a)
  ]
  | inr s ↦ rw s (expire_and_release-Settles r _ db (λ h. cc) a)
]

pub settle_tx-AllCoherent :
    (now : ℕ) (event : WebhookEvent) (db : Db)
    → AllCoherent db
    → AllCoherent (settle_tx now event db).1
      × ((settle_tx now event db).0 ≢ SettleOutcome.orphaned_success)
unfolding settle_tx
settle_tx-AllCoherent now event db a =
    elim (Option-cases (find_payment event.merchant_oid db.reservations)) [
      | inl n ↦ rw (n, settle_tx) (a, (λ e. cc))
      | inr ((r, p), m) ↦
          let after = settle_found-Settles now event r p db a in
          elim (Option-cases (settle_found now event r p db)) [
            | inl e ↦ absurd (rw e at after)
            | inr ((outcome, db'), e) ↦ rw (m, e, settle_tx) (rw e at after)
          ]
    ]
