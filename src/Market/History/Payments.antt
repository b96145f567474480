-- ===== src/Market/History/Payments.antt =====
-- payment-settle.service.ts after any history: a payment that arrives in time confirms.
use kurtar.Prelude.{ℕ, ◌≡◌, refl, ◌∙◌, true, Option, none, some, ◌==◌, ==_iff}
use kurtar.Status.Reservation.{confirmed}
use kurtar.Market.Rows.Laws.{found-matched}
use kurtar.Market.Rows.Compose.{find-write_same, matched-write}
use kurtar.Market.State.{
  Db, Offer, Payment, Reservation, reservation_key, find_reservation, find_offer, write_reservation,
  reservation_matched, payment_in, includes_payment, live_statuses, set_status, map_payment,
}
use kurtar.Market.Fanout.{status_in}
use kurtar.Market.Settle.{
  WebhookEvent, confirmed_now, confirmable_from, find_payment, settle_tx, settle_found,
  settle_success, publish_confirmed,
}
use kurtar.Market.Coherence.{IsCoherent}
use kurtar.Market.Coherence.Settle.{pay, pays_row, pay_forces}
use kurtar.Market.Conservation.Settle.{find_payment-found}
use kurtar.Market.Rows.Laws.{find-All}
use kurtar.Market.History.{Reach, empty}
use kurtar.Market.History.Soundness.{Reach-IsSound, empty-IsSound}

published-found :
    (id : ℕ) (r : Reservation) (o : Option Offer) (db : Db)
    → find_reservation id (publish_confirmed r o db) ≡ find_reservation id db
published-found id r none db = refl
published-found id r (some o) db = refl

-- The row that is paid for: confirmed, its payment paid now.
abbrev pub settled_row : ℕ → Reservation → Reservation
settled_row now r = set_status confirmed (map_payment (pay now) r)

settle_success-confirms :
    (now : ℕ) (r : Reservation) (db : Db)
    → find_reservation r.id db ≡ some r
    → payment_in live_statuses r ≡ true
    → IsCoherent r
    → (db' : Db) × (settle_success now r db ≡ some (confirmed_now, db'))
      × (find_reservation r.id db' ≡ some (settled_row now r))
unfolding settle_success
settle_success-confirms now r db e t v =
    let g = payment_in live_statuses in
    let db1 = write_reservation r.id g (map_payment (pay now)) db in
    let m : reservation_matched r.id g db ≡ true =
      found-matched reservation_key r.id g db.reservations r e ∙ t in
    let n : reservation_matched r.id (status_in confirmable_from) db1 ≡ true =
      matched-write reservation_key r.id g (status_in confirmable_from) (map_payment (pay now))
        db.reservations r (λ _. refl) e
      ∙ pay_forces now r v t in
    let found1 =
      find-write_same reservation_key r.id g (map_payment (pay now)) db.reservations r (λ _. refl)
        e in
    let found2 =
      find-write_same reservation_key r.id (status_in confirmable_from) (set_status confirmed)
        db1.reservations (pays_row now r) (λ _. refl) found1 in
    let db2 = write_reservation r.id (status_in confirmable_from) (set_status confirmed) db1 in
    (
      publish_confirmed r (find_offer r.offer_id db) db2,
      rw (m, n),
      published-found r.id r (find_offer r.offer_id db) db2 ∙ found2 ∙ rw (pay_forces now r v t, t),
    )

-- After any history that starts from the empty database, a success for the exact amount of a payment
-- that is still live confirms its reservation and turns the payment paid, now.
pub settle_tx-confirms :
    (db : Db) (now : ℕ) (event : WebhookEvent) (r : Reservation) (p : Payment)
    → Reach empty db
    → find_payment event.merchant_oid db.reservations ≡ some (r, p)
    → includes_payment live_statuses p.status ≡ true
    → event.is_success ≡ true
    → event.total_cents ≡ p.amount_cents
    → ((settle_tx now event db).0 ≡ confirmed_now)
      × (find_reservation r.id (settle_tx now event db).1 ≡ some (settled_row now r))
unfolding settle_tx settle_found
settle_tx-confirms db now event r p h found live success exact =
    let sound = Reach-IsSound empty-IsSound h in
    let (e, has, oid) =
      find_payment-found event.merchant_oid db.reservations r p sound.unique found in
    let coherent = find-All reservation_key IsCoherent r.id db.reservations r sound.coherent e in
    let t : payment_in live_statuses r ≡ true = rw has live in
    let (db', ran, after) = settle_success-confirms now r db e t coherent in
    let same_amount : (event.total_cents == p.amount_cents) ≡ true = (==_iff _ _).1 exact in
    let run : settle_found now event r p db ≡ some (confirmed_now, db') =
      rw (success, same_amount) ran in
    rw (found, run, settle_tx) (refl, after)
