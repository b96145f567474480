-- ===== src/Market/History/Settled.antt =====
-- payment-settle.service.ts and payments-sweeper.service.ts after any history: what becomes of a
-- reservation whose payment is still live.
use kurtar.Prelude.{
  ℕ, ◌≡◌, refl, ◌∙◌, Bool, true, false, some, ◌∷◌, ◌==◌, ◌&&◌, ==_iff, Result, ok, arith,
  Bool-cases, inl, inr, if◌then◌else◌,
}
use kurtar.Status.Reservation.{expired}
use kurtar.Market.Rows.{any}
use kurtar.Market.Rows.Laws.{found-matched, find-All}
use kurtar.Market.Rows.Compose.{find-write_same, matched-write}
use kurtar.Market.State.{
  Db, Payment, Reservation, reservation_key, find_reservation, write_reservation,
  reservation_matched, payment_in, includes_payment, live_statuses, set_status, set_payment_status,
  map_payment, failed,
}
use kurtar.Market.Stock.{release}
use kurtar.Market.Fanout.{status_in}
use kurtar.Market.Reservations.Create.{expirable_from}
use kurtar.Market.Settle.{
  WebhookEvent, SettleOutcome, find_payment, settle, settle_tx, settle_found, expire_and_release,
}
use kurtar.Market.Sweeper.{QueryStatus, paid_at_provider, not_paid, or_else, sweep_one}
use kurtar.Market.Coherence.{IsCoherent}
use kurtar.Market.Coherence.Steps.{failed_row, live_forces, fail}
use kurtar.Market.Conservation.Settle.{find_payment-found}
use kurtar.Market.History.{Reach, empty, next, logs_event}
use kurtar.Market.History.Payments.{settled_row, settle_tx-confirms}
use kurtar.Market.History.Soundness.{Reach-IsSound, empty-IsSound}

-- The row whose payment did not come: expired, its payment failed.
abbrev pub lapsed_row : Reservation → Reservation
lapsed_row r = set_status expired (set_payment_status failed r)

expire_and_release-lapses :
    (r : Reservation) (outcome : SettleOutcome) (db : Db)
    → find_reservation r.id db ≡ some r
    → payment_in live_statuses r ≡ true
    → IsCoherent r
    → find_reservation r.id (expire_and_release r outcome db).1 ≡ some (lapsed_row r)
unfolding expire_and_release release
expire_and_release-lapses r outcome db e t v =
    let g = payment_in live_statuses in
    let db1 = write_reservation r.id g (map_payment fail) db in
    let m : reservation_matched r.id g db ≡ true =
      found-matched reservation_key r.id g db.reservations r e ∙ t in
    let n : reservation_matched r.id (status_in expirable_from) db1 ≡ true =
      matched-write reservation_key r.id g (status_in expirable_from) (map_payment fail)
        db.reservations r (λ _. refl) e
      ∙ live_forces r v t in
    let found1 =
      find-write_same reservation_key r.id g (map_payment fail) db.reservations r (λ _. refl) e in
    let found2 =
      find-write_same reservation_key r.id (status_in expirable_from) (set_status expired)
        db1.reservations (failed_row live_statuses r) (λ _. refl) found1 in
    rw (m, n) (found2 ∙ rw (live_forces r v t, t))

-- Whether an event pays what is due.
abbrev pays : WebhookEvent → ℕ → Bool
pays event due = event.is_success && event.total_cents == due

settle_tx-row :
    (db : Db) (now : ℕ) (event : WebhookEvent) (r : Reservation) (p : Payment)
    → Reach empty db
    → find_payment event.merchant_oid db.reservations ≡ some (r, p)
    → includes_payment live_statuses p.status ≡ true
    → find_reservation r.id (settle_tx now event db).1
      ≡ some (if pays event p.amount_cents then settled_row now r else lapsed_row r)
unfolding settle_tx settle_found
settle_tx-row db now event r p h found live =
    let sound = Reach-IsSound empty-IsSound h in
    let (e, has, oid) =
      find_payment-found event.merchant_oid db.reservations r p sound.unique found in
    let coherent = find-All reservation_key IsCoherent r.id db.reservations r sound.coherent e in
    let t : payment_in live_statuses r ≡ true = rw has live in
    elim (Bool-cases event.is_success) [
      | inr s ↦
          rw (found, settle_tx)
            (rw s (expire_and_release-lapses r SettleOutcome.expired_now db e t coherent))
      | inl s ↦ elim (Bool-cases (event.total_cents == p.amount_cents)) [
        | inr a ↦
            rw (found, settle_tx)
              (rw (s, a)
                (expire_and_release-lapses r SettleOutcome.amount_mismatch_quarantined db e t
                  coherent))
        | inl a ↦
            let confirms = settle_tx-confirms db now event r p h found live s ((==_iff _ _).0 a) in
            let paid_up : pays event p.amount_cents ≡ true = ground arith in confirms.1 ∙ rw paid_up
      ]
    ]

-- Whether the provider's answer pays what is due.
abbrev pub covers : QueryStatus → ℕ → ℕ → Bool
covers (paid_at_provider amount) fallback due = or_else amount fallback == due
covers not_paid fallback due = false

settle-row :
    (db : Db) (now : ℕ) (event : WebhookEvent) (r : Reservation) (p : Payment)
    → Reach empty db
    → any (λ e. e == event.external_event_id) db.webhook_events ≡ false
    → find_payment event.merchant_oid db.reservations ≡ some (r, p)
    → includes_payment live_statuses p.status ≡ true
    → find_reservation r.id (settle now event db).1
      ≡ some (if pays event p.amount_cents then settled_row now r else lapsed_row r)
unfolding settle
settle-row db now event r p h new found live =
    let db1 = record db { webhook_events = event.external_event_id ∷ db.webhook_events } in
    rw new
      (settle_tx-row db1 now event r p (next h (logs_event db event.external_event_id)) found live)

-- After any history that starts from the empty database, when the payments sweeper asks the provider
-- about a payment that is still live, under a fresh event, and gets an answer: the reservation is
-- confirmed and its payment paid, now, if the provider has been paid exactly the amount (its own
-- figure, or else the one that the sweeper gave); in every other case, not paid or another amount,
-- the reservation is expired and its payment failed.
pub sweep_one-decides :
    (query : ℕ → Result ℕ QueryStatus) (answer : QueryStatus)
    (now event_id merchant_oid fallback : ℕ) (r : Reservation) (p : Payment) (db : Db)
    → Reach empty db
    → query merchant_oid ≡ ok answer
    → any (λ e. e == event_id) db.webhook_events ≡ false
    → find_payment merchant_oid db.reservations ≡ some (r, p)
    → includes_payment live_statuses p.status ≡ true
    → find_reservation r.id (sweep_one query now event_id merchant_oid fallback db).1
      ≡ some (if covers answer fallback p.amount_cents then settled_row now r else lapsed_row r)
unfolding sweep_one
sweep_one-decides query (paid_at_provider amount) now event_id oid fallback r p db h q new found
      live =
    rw (q, sweep_one)
      (settle-row db now
        (record {
          merchant_oid = oid;
          is_success = true;
          total_cents = or_else amount fallback;
          external_event_id = event_id;
        })
        r p h new found live)
sweep_one-decides query not_paid now event_id oid fallback r p db h q new found live =
    rw (q, sweep_one)
      (settle-row db now
        (record {
          merchant_oid = oid;
          is_success = false;
          total_cents = fallback;
          external_event_id = event_id;
        })
        r p h new found live)
