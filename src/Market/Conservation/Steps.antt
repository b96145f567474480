-- ===== src/Market/Conservation/Steps.antt =====
-- Each transaction of reservations.service.ts, payment-settle.service.ts and
-- no-show-sweeper.service.ts keeps the stock conserved, whatever ran between it and its reads.
use kurtar.Prelude.{
  ℕ, ◌≡◌, refl, Bool, true, List, [], ◌∷◌, Result, ok, err, arith, Bool-cases, Option-cases, inl,
  inr, All,
}
use kurtar.Status.{includes, same}
use kurtar.Status.Reservation.{ReservationStatus, machine, redeemed, cancelled_by_user, expired}
use kurtar.Market.Rows.{any}
use kurtar.Market.State.{
  Db, Offer, Reservation, Error, write_reservation, reservation_matched, payment_in,
  set_payment_status, set_status, map_payment, intent, failed, live_statuses, find_offer, Payment,
}
use kurtar.Market.Stock.{claim}
use kurtar.Market.Conservation.{IsConserved, IsSnapshot, write-IsConserved, write-IsSnapshot}
use kurtar.Market.Conservation.Counters.{
  Frees, Redeems, release-IsConserved, redeem-IsConserved, claim-IsConserved,
}
use kurtar.Market.Reservations.Create.{
  Fresh, Committed, create_tx, insert_reservation, new_reservation, compensate_failed_intent,
  expirable_from, uses_code, uses_keys,
}
use kurtar.Market.Reservations.Cancel.{
  cancel_tx, cancel_from, cancellable_from, can_cancel, finish_cancel,
}
use kurtar.Market.Reservations.Redeem.{Redeemer, redeem_tx, can_redeem, set_redeemed}
use kurtar.Market.Fanout.{status_in}

-- A property of the database that a successful transaction leaves.
abbrev pub After : {A : Type 0} → (Db → Type 0) → Result Error (A × Db) → Type 0
After P (ok (a, db)) = P db
After P (err e) = Unit

-- A write of the payment, or of its status, leaves the bags alone.
pub payment-IsConserved :
    (db : Db) (id : ℕ) (g : Reservation → Bool) (f : Payment → Payment)
    → IsConserved db
    → IsConserved (write_reservation id g (map_payment f) db)
payment-IsConserved db id g f = write-IsConserved db id g (map_payment f) (λ r t. record {
  same_offer = refl;
  same_qty = refl;
  same_holding = refl;
  same_redeemed = refl;
})

pub payment-IsSnapshot :
    (db : Db) (k offer_id qty : ℕ) (id : ℕ) (g : Reservation → Bool) (f : Payment → Payment)
    → IsSnapshot db k offer_id qty
    → IsSnapshot (write_reservation id g (map_payment f) db) k offer_id qty
payment-IsSnapshot db k offer_id qty id g f =
    write-IsSnapshot db k offer_id qty id g (map_payment f) (λ r. (refl, refl, refl))

pub insert-After :
    (P : Db → Type 0) (user_id offer_id : ℕ) (o : Offer) (qty : ℕ) (fresh : Fresh) (db : Db)
    → P (record db {
      reservations = new_reservation user_id offer_id o qty fresh ∷ db.reservations;
    })
    → After P (insert_reservation user_id offer_id o qty fresh db)
unfolding insert_reservation
insert-After P user_id offer_id o qty fresh db p =
    elim (Bool-cases (any (uses_code fresh.code) db.reservations)) [
      | inl e ↦ rw e tt
      | inr e ↦ elim (Bool-cases (any (uses_keys fresh) db.reservations)) [
        | inl k ↦ rw (e, k) tt
        | inr k ↦ rw (e, k) p
      ]
    ]

pub create_tx-IsConserved :
    (user_id offer_id qty : ℕ) (fresh : Fresh) (db : Db)
    → IsConserved db
    → After IsConserved (create_tx user_id offer_id qty fresh db)
unfolding create_tx
create_tx-IsConserved user_id offer_id qty fresh db c =
    elim (Option-cases (find_offer offer_id db)) [
      | inl e ↦ rw (e, create_tx) tt
      | inr (o, e) ↦ elim (Bool-cases (claim offer_id qty db).0) [
        | inl m ↦
            rw (e, m, create_tx)
              (insert-After IsConserved user_id offer_id o qty fresh _ (
                claim-IsConserved db (new_reservation user_id offer_id o qty fresh) offer_id refl
                  refl m c))
        | inr m ↦ rw (e, m, create_tx) tt
      ]
    ]

pub expire-Frees :
    (r : Reservation)
    → includes machine expirable_from r.status ≡ true
    → Frees r (set_status expired r)
expire-Frees r t = ground arith

pub compensate_failed_intent-IsConserved :
    (c : Committed) (db : Db)
    → IsSnapshot db c.reservation_id c.offer_id c.qty
    → IsConserved db
    → IsConserved (compensate_failed_intent c db)
unfolding compensate_failed_intent
compensate_failed_intent-IsConserved c db s v =
    let g = payment_in (intent ∷ []) in
    let db1 = write_reservation c.reservation_id g (set_payment_status failed) db in
    let v1 = payment-IsConserved db c.reservation_id g _ v in
    let s1 = payment-IsSnapshot db c.reservation_id c.offer_id c.qty c.reservation_id g _ s in
    elim (Bool-cases (reservation_matched c.reservation_id g db)) [
      | inl m ↦
          elim (Bool-cases (reservation_matched c.reservation_id (status_in expirable_from) db1)) [
            | inl n ↦
                rw (m, n)
                  (release-IsConserved db1 c.reservation_id c.offer_id c.qty
                    (status_in expirable_from) (set_status expired) expire-Frees s1 n v1)
            | inr n ↦ rw (m, n) v1
          ]
      | inr m ↦ rw m v
    ]

cancel-Frees :
    (from : ReservationStatus) (now : ℕ) (r : Reservation)
    → includes machine cancellable_from from ≡ true
    → can_cancel from now r ≡ true
    → Frees r (set_status cancelled_by_user r)
cancel-Frees from now r h t = ground arith

finish_cancel-IsConserved :
    (s : Reservation) (now : ℕ) (statuses : List ReservationStatus) (db : Db)
    → All (λ from. includes machine cancellable_from from ≡ true) statuses
    → IsSnapshot db s.id s.offer_id s.qty
    → IsConserved db
    → After IsConserved (finish_cancel s (cancel_from statuses s.id now db))
unfolding cancel_from
finish_cancel-IsConserved s now [] db a snap c = tt
finish_cancel-IsConserved s now (from ∷ statuses) db a snap c =
    elim (Bool-cases (reservation_matched s.id (can_cancel from now) db)) [
      | inl m ↦ rw m (
          release-IsConserved db s.id s.offer_id s.qty (can_cancel from now)
            (set_status cancelled_by_user) (λ r. cancel-Frees from now r a.0) snap m c)
      | inr m ↦ rw m (finish_cancel-IsConserved s now statuses db a.1 snap c)
    ]

pub cancel_tx-IsConserved :
    (s : Reservation) (now : ℕ) (db : Db)
    → IsSnapshot db s.id s.offer_id s.qty
    → IsConserved db
    → After IsConserved (cancel_tx s now db)
unfolding cancel_tx
cancel_tx-IsConserved s now db snap c =
    finish_cancel-IsConserved s now cancellable_from
      (write_reservation s.id (payment_in live_statuses) (set_payment_status failed) db)
      (refl, (refl, tt))
      (payment-IsSnapshot db s.id s.offer_id s.qty s.id (payment_in live_statuses) _ snap)
      (payment-IsConserved db s.id (payment_in live_statuses) _ c)

redeem-Redeems :
    (by : Redeemer) (at : ℕ) (r : Reservation)
    → can_redeem r ≡ true
    → Redeems r (set_redeemed by at r)
redeem-Redeems by at r t = ground arith

pub redeem_tx-IsConserved :
    (by : Redeemer) (s : Reservation) (o : Offer) (at : ℕ) (db : Db)
    → IsSnapshot db s.id s.offer_id s.qty
    → IsConserved db
    → After IsConserved (redeem_tx by s o at db)
unfolding redeem_tx
redeem_tx-IsConserved by s o at db (r, e, same_offer, same_qty) c =
    elim (Bool-cases (reservation_matched s.id can_redeem db)) [
      | inl m ↦ rw m (
          redeem-IsConserved db s.id s.offer_id s.qty can_redeem (set_redeemed by at)
            (redeem-Redeems by at) (r, e, same_offer, same_qty) m c)
      | inr m ↦ elim (Bool-cases (same machine r.status redeemed)) [
        | inl d ↦ rw (m, e, d) c
        | inr d ↦ rw (m, e, d) tt
      ]
    ]
