-- ===== src/Market/Moves/Steps.antt =====
-- Each transaction of the services is a chain of lawful moves.
use kurtar.Prelude.{
  ℕ, ◌≡◌, refl, Bool, true, false, none, List, [], ◌∷◌, Result, ok, err, arith, Bool-cases,
  Option-cases, inl, inr, All,
}
use kurtar.Status.{includes, same}
use kurtar.Status.Reservation.{ReservationStatus, machine, redeemed, cancelled_by_user, expired}
use kurtar.Market.Rows.{find, any}
use kurtar.Market.State.{
  Db, Offer, Reservation, Error, reservation_key, write_reservation, reservation_matched,
  payment_in, set_payment_status, set_status, map_payment, intent, failed, live_statuses,
  find_reservation, find_offer, Payment,
}
use kurtar.Market.Stock.{release, claim}
use kurtar.Market.Reservations.Create.{
  Fresh, Committed, create_tx, insert_reservation, new_reservation, compensate_failed_intent,
  expirable_from, uses_code, uses_keys,
}
use kurtar.Market.Reservations.Cancel.{
  cancel_tx, cancel_from, cancellable_from, can_cancel, finish_cancel,
}
use kurtar.Market.Reservations.Redeem.{Redeemer, redeem_tx, can_redeem, set_redeemed}
use kurtar.Market.Fanout.{status_in}
use kurtar.Status.{is_transition_allowed}
use kurtar.Market.Conservation.Steps.{After}
use kurtar.Market.Moves.{Moves, IsLawful, same_rows, one_write, one_insert, both}

payment-IsLawful : (g : Reservation → Bool) (f : Payment → Payment) → IsLawful g (map_payment f)
payment-IsLawful g f = record { same_order = λ r. ground arith; allowed = λ r t. inl refl }

status-IsLawful :
    (to : ReservationStatus) (g : Reservation → Bool)
    → ((r : Reservation) → g r ≡ true → is_transition_allowed machine r.status to ≡ true)
    → IsLawful g (set_status to)
status-IsLawful to g h = record { same_order = λ r. ground arith; allowed = λ r t. inr (h r t) }

pub payment-Moves :
    (db : Db) (id : ℕ) (g : Reservation → Bool) (f : Payment → Payment)
    → Moves db (write_reservation id g (map_payment f) db)
payment-Moves db id g f =
    one_write db (write_reservation id g (map_payment f) db) id g _ (payment-IsLawful g f) refl

pub status-Moves :
    (db : Db) (id : ℕ) (to : ReservationStatus) (g : Reservation → Bool)
    → ((r : Reservation) → g r ≡ true → is_transition_allowed machine r.status to ≡ true)
    → Moves db (write_reservation id g (set_status to) db)
status-Moves db id to g h =
    one_write db (write_reservation id g (set_status to) db) id g _ (status-IsLawful to g h) refl

release-Moves : (db : Db) (offer_id qty : ℕ) → Moves db (release offer_id qty db)
unfolding release
release-Moves db offer_id qty = same_rows db (release offer_id qty db) refl

-- A guarded transition with its release.
pub freed-Moves :
    (db : Db) (id offer_id qty : ℕ) (to : ReservationStatus) (g : Reservation → Bool)
    → ((r : Reservation) → g r ≡ true → is_transition_allowed machine r.status to ≡ true)
    → Moves db (release offer_id qty (write_reservation id g (set_status to) db))
freed-Moves db id offer_id qty to g h =
    both db (write_reservation id g (set_status to) db) _ (status-Moves db id to g h)
      (release-Moves _ offer_id qty)

any-absent :
    (fresh : Fresh) (rs : List Reservation)
    → any (uses_keys fresh) rs ≡ false
    → find reservation_key fresh.id rs ≡ none
unfolding find
any-absent fresh [] e = refl
any-absent fresh (r ∷ rs) e = ground (arith, any-absent fresh rs)

insert-Moves :
    (user_id offer_id : ℕ) (o : Offer) (qty : ℕ) (fresh : Fresh) (db : Db)
    → After (Moves db) (insert_reservation user_id offer_id o qty fresh db)
unfolding insert_reservation
insert-Moves user_id offer_id o qty fresh db =
    elim (Bool-cases (any (uses_code fresh.code) db.reservations)) [
      | inl e ↦ rw e tt
      | inr e ↦ elim (Bool-cases (any (uses_keys fresh) db.reservations)) [
        | inl k ↦ rw (e, k) tt
        | inr k ↦
            rw (e, k)
              (one_insert db _ (new_reservation user_id offer_id o qty fresh)
                (any-absent fresh db.reservations k) refl)
      ]
    ]

After-mono :
    {A : Type 0} (P Q : Db → Type 0) (r : Result Error (A × Db))
    → ((db : Db) → P db → Q db)
    → After P r
    → After Q r
After-mono P Q (ok (a, db)) h p = h db p
After-mono P Q (err e) h p = tt

pub create_tx-Moves :
    (user_id offer_id qty : ℕ) (fresh : Fresh) (db : Db)
    → After (Moves db) (create_tx user_id offer_id qty fresh db)
unfolding create_tx
create_tx-Moves user_id offer_id qty fresh db = elim (Option-cases (find_offer offer_id db)) [
  | inl e ↦ rw (e, create_tx) tt
  | inr (o, e) ↦ elim (Bool-cases (claim offer_id qty db).0) [
    | inl m ↦
        let db1 = (claim offer_id qty db).1 in
        rw (e, m, create_tx)
          (After-mono (Moves db1) (Moves db) (insert_reservation user_id offer_id o qty fresh db1)
            (λ db'. both db db1 db' (same_rows db db1 refl))
            (insert-Moves user_id offer_id o qty fresh db1))
    | inr m ↦ rw (e, m, create_tx) tt
  ]
]

pub expire-allowed :
    (r : Reservation)
    → includes machine expirable_from r.status ≡ true
    → is_transition_allowed machine r.status expired ≡ true
expire-allowed r t = ground arith

pub compensate_failed_intent-Moves :
    (c : Committed) (db : Db) → Moves db (compensate_failed_intent c db)
unfolding compensate_failed_intent
compensate_failed_intent-Moves c db =
    let g = payment_in (intent ∷ []) in
    let db1 = write_reservation c.reservation_id g (set_payment_status failed) db in
    let m1 = payment-Moves db c.reservation_id g _ in
    elim (Bool-cases (reservation_matched c.reservation_id g db)) [
      | inl m ↦
          elim (Bool-cases (reservation_matched c.reservation_id (status_in expirable_from) db1)) [
            | inl n ↦
                rw (m, n)
                  (both db db1 _ m1 (
                    freed-Moves db1 c.reservation_id c.offer_id c.qty expired
                      (status_in expirable_from) expire-allowed))
            | inr n ↦ rw (m, n) m1
          ]
      | inr m ↦ rw m (same_rows db db refl)
    ]

cancel-allowed :
    (from : ReservationStatus) (now : ℕ) (r : Reservation)
    → includes machine cancellable_from from ≡ true
    → can_cancel from now r ≡ true
    → is_transition_allowed machine r.status cancelled_by_user ≡ true
cancel-allowed from now r h t = ground arith

finish_cancel-Moves :
    (s : Reservation) (now : ℕ) (statuses : List ReservationStatus) (db : Db)
    → All (λ from. includes machine cancellable_from from ≡ true) statuses
    → After (Moves db) (finish_cancel s (cancel_from statuses s.id now db))
unfolding cancel_from
finish_cancel-Moves s now [] db a = tt
finish_cancel-Moves s now (from ∷ statuses) db a =
    elim (Bool-cases (reservation_matched s.id (can_cancel from now) db)) [
      | inl m ↦ rw m (
          freed-Moves db s.id s.offer_id s.qty cancelled_by_user (can_cancel from now)
            (λ r. cancel-allowed from now r a.0))
      | inr m ↦ rw m (finish_cancel-Moves s now statuses db a.1)
    ]

pub cancel_tx-Moves : (s : Reservation) (now : ℕ) (db : Db) → After (Moves db) (cancel_tx s now db)
unfolding cancel_tx
cancel_tx-Moves s now db =
    let db1 = write_reservation s.id (payment_in live_statuses) (set_payment_status failed) db in
    After-mono (Moves db1) (Moves db) (cancel_tx s now db)
      (λ db'. both db db1 db' (payment-Moves db s.id (payment_in live_statuses) _))
      (finish_cancel-Moves s now cancellable_from db1 (refl, (refl, tt)))

redeem-IsLawful : (by : Redeemer) (at : ℕ) → IsLawful can_redeem (set_redeemed by at)
redeem-IsLawful by at = record {
  same_order = λ r. ground arith;
  allowed = λ r t. inr (redeem-allowed r t);
}
  where
    redeem-allowed :
        (r : Reservation)
        → can_redeem r ≡ true
        → is_transition_allowed machine r.status redeemed ≡ true
    redeem-allowed r t = ground arith

pub redeem_tx-Moves :
    (by : Redeemer) (s : Reservation) (o : Offer) (at : ℕ) (db : Db)
    → After (Moves db) (redeem_tx by s o at db)
unfolding redeem_tx
redeem_tx-Moves by s o at db = elim (Bool-cases (reservation_matched s.id can_redeem db)) [
  | inl m ↦ rw m (one_write db _ s.id can_redeem _ (redeem-IsLawful by at) refl)
  | inr m ↦ elim (Option-cases (find_reservation s.id db)) [
    | inl e ↦ rw (m, e) tt
    | inr (r, e) ↦ elim (Bool-cases (same machine r.status redeemed)) [
      | inl d ↦ rw (m, e, d) (same_rows db db refl)
      | inr d ↦ rw (m, e, d) tt
    ]
  ]
]
