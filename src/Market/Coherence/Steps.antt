-- ===== src/Market/Coherence/Steps.antt =====
-- The transactions of reservations.service.ts keep reservations and payments coherent.
use kurtar.Prelude.{
  ℕ, ◌≡◌, refl, Bool, true, some, List, [], ◌∷◌, arith, Bool-cases, Option-cases, inl, inr, All,
}
use kurtar.Status.{includes, same}
use kurtar.Status.Reservation.{
  ReservationStatus, machine, redeemed, cancelled_by_user, cancelled_by_merchant, expired,
}
use kurtar.Market.State.{
  Db, Offer, Reservation, reservation_key, write_reservation, reservation_matched, payment_in,
  set_payment_status, set_status, map_payment, intent, live_statuses, find_reservation, find_offer,
  Payment,
}
use kurtar.Market.Stock.{release, claim}
use kurtar.Market.Reservations.Create.{
  Fresh, Committed, create_tx, insert_reservation, compensate_failed_intent, expirable_from,
}
use kurtar.Market.Reservations.Cancel.{
  cancel_tx, cancel_from, cancellable_from, can_cancel, finish_cancel,
}
use kurtar.Market.Reservations.Redeem.{Redeemer, redeem_tx, can_redeem, set_redeemed}
use kurtar.Market.Fanout.{status_in, cancelled_by_merchant_from}
use kurtar.Market.State.{PaymentStatus}
use kurtar.Market.Conservation.Steps.{After, insert-After}
use kurtar.Prelude.{◌∙◌, sym}
use kurtar.Market.Rows.Laws.{updated, find-All, find-write, matched-found, found-matched}
use kurtar.Market.Coherence.{IsCoherent, AllCoherent, All-replace, All-replace₂}

-- A payment write, and then a guarded transition of the same reservation.
module _ (db : Db) (id : ℕ) (g₁ g₂ : Reservation → Bool) (pay : Payment → Payment)
    (to : ReservationStatus) (all : AllCoherent db) where
  abbrev pub paid_row : Reservation → Reservation
  paid_row x = updated g₁ (map_payment pay) x

  pub matched₂ :
      (x : Reservation)
      → find_reservation id db ≡ some x
      → reservation_matched id g₂ (write_reservation id g₁ (map_payment pay) db) ≡ g₂ (paid_row x)
  matched₂ x e = found-matched reservation_key id g₂ _ (paid_row x) (
      find-write reservation_key id id g₁ (map_payment pay) db.reservations (λ _. refl)
      ∙ ground (arith, e))

  pub two_writes-AllCoherent :
      reservation_matched id g₂ (write_reservation id g₁ (map_payment pay) db) ≡ true
      → ((x : Reservation)
          → find_reservation id db ≡ some x
          → IsCoherent x
          → g₂ (paid_row x) ≡ true
          → IsCoherent (set_status to (paid_row x)))
      → AllCoherent
          (write_reservation id g₂ (set_status to) (write_reservation id g₁ (map_payment pay) db))
  two_writes-AllCoherent m step =
      All-replace₂ reservation_key IsCoherent id g₁ g₂ (map_payment pay) (set_status to)
        db.reservations (λ _. refl) all
        (λ x e c.
          let t : g₂ (paid_row x) ≡ true = ground (arith, matched₂ x e) in rw t (step x e c t))

  -- If coherence forces the second guard whenever the first holds, the transition is made.
  pub always_matched :
      reservation_matched id g₁ db ≡ true
      → ((x : Reservation) → IsCoherent x → g₁ x ≡ true → g₂ (paid_row x) ≡ true)
      → reservation_matched id g₂ (write_reservation id g₁ (map_payment pay) db) ≡ true
  always_matched m force =
      let (x, e, t) = matched-found reservation_key id g₁ db.reservations m in
      matched₂ x e ∙ force x (find-All reservation_key IsCoherent id db.reservations x all e) t

abbrev pub fail : Payment → Payment
fail p = record p { status = PaymentStatus.failed }

-- Failing a live payment.
abbrev pub failed_row : List PaymentStatus → Reservation → Reservation
failed_row statuses x = updated (payment_in statuses) (map_payment fail) x

intent_forces :
    (x : Reservation)
    → IsCoherent x
    → payment_in (intent ∷ []) x ≡ true
    → status_in expirable_from (failed_row (intent ∷ []) x) ≡ true
intent_forces x c t = ground arith

pub live_forces :
    (x : Reservation)
    → IsCoherent x
    → payment_in live_statuses x ≡ true
    → status_in expirable_from (failed_row live_statuses x) ≡ true
live_forces x c t = ground arith

intent_expires :
    (x : Reservation)
    → IsCoherent x
    → status_in expirable_from (failed_row (intent ∷ []) x) ≡ true
    → payment_in (intent ∷ []) x ≡ true
    → IsCoherent (set_status expired (failed_row (intent ∷ []) x))
intent_expires x c t l = ground arith

pub live_expires :
    (x : Reservation)
    → IsCoherent x
    → status_in expirable_from (failed_row live_statuses x) ≡ true
    → IsCoherent (set_status expired (failed_row live_statuses x))
live_expires x c t = ground arith

cancelled_row :
    (from : ReservationStatus) (now : ℕ) (x : Reservation)
    → includes machine cancellable_from from ≡ true
    → IsCoherent x
    → can_cancel from now (failed_row live_statuses x) ≡ true
    → IsCoherent (set_status cancelled_by_user (failed_row live_statuses x))
cancelled_row from now x h c t = ground arith

pub merchant_row :
    (x : Reservation)
    → IsCoherent x
    → status_in cancelled_by_merchant_from (failed_row live_statuses x) ≡ true
    → IsCoherent (set_status cancelled_by_merchant (failed_row live_statuses x))
merchant_row x c t = ground arith

redeemed_row :
    (by : Redeemer) (at : ℕ) (x : Reservation)
    → IsCoherent x
    → can_redeem x ≡ true
    → IsCoherent (set_redeemed by at x)
redeemed_row by at x c t = ground arith

insert-AllCoherent :
    (user_id offer_id : ℕ) (o : Offer) (qty : ℕ) (fresh : Fresh) (db : Db)
    → AllCoherent db
    → After AllCoherent (insert_reservation user_id offer_id o qty fresh db)
insert-AllCoherent user_id offer_id o qty fresh db a =
    insert-After AllCoherent user_id offer_id o qty fresh db
      (record { payment = (refl, refl); priced = refl; stamped = refl }, a)

pub create_tx-AllCoherent :
    (user_id offer_id qty : ℕ) (fresh : Fresh) (db : Db)
    → AllCoherent db
    → After AllCoherent (create_tx user_id offer_id qty fresh db)
unfolding create_tx
create_tx-AllCoherent user_id offer_id qty fresh db a =
    elim (Option-cases (find_offer offer_id db)) [
      | inl e ↦ rw (e, create_tx) tt
      | inr (o, e) ↦ elim (Bool-cases (claim offer_id qty db).0) [
        | inl m ↦
            rw (e, m, create_tx)
              (insert-AllCoherent user_id offer_id o qty fresh (claim offer_id qty db).1 a)
        | inr m ↦ rw (e, m, create_tx) tt
      ]
    ]

pub compensate_failed_intent-AllCoherent :
    (c : Committed) (db : Db) → AllCoherent db → AllCoherent (compensate_failed_intent c db)
unfolding compensate_failed_intent
compensate_failed_intent-AllCoherent c db a =
    let id = c.reservation_id in
    let g = payment_in (intent ∷ []) in
    elim (Bool-cases (reservation_matched id g db)) [
      | inl m ↦
          let n =
            always_matched db id g (status_in expirable_from) fail expired a m intent_forces in
          rw (m, n)
            (two_writes-AllCoherent db id g (status_in expirable_from) fail expired a n
              λ x e v t. intent_expires x v t (sym (found-matched reservation_key id g _ x e) ∙ m))
      | inr m ↦ rw m a
    ]

finish_cancel-AllCoherent :
    (s : Reservation) (now : ℕ) (statuses : List ReservationStatus) (db : Db)
    → All (λ from. includes machine cancellable_from from ≡ true) statuses
    → AllCoherent db
    → After AllCoherent (
        finish_cancel s (
          cancel_from statuses s.id now (
            write_reservation s.id
              (payment_in live_statuses)
              (set_payment_status PaymentStatus.failed)
              db)))
unfolding cancel_from release
finish_cancel-AllCoherent s now [] db h a = tt
finish_cancel-AllCoherent s now (from ∷ statuses) db h a =
    let db1 =
      write_reservation s.id (payment_in live_statuses) (set_payment_status PaymentStatus.failed)
        db in
    elim (Bool-cases (reservation_matched s.id (can_cancel from now) db1)) [
      | inl m ↦ rw m (
          two_writes-AllCoherent db s.id (payment_in live_statuses) (can_cancel from now) fail
            cancelled_by_user a m λ x e v t. cancelled_row from now x h.0 v t)
      | inr m ↦ rw m (finish_cancel-AllCoherent s now statuses db h.1 a)
    ]

pub cancel_tx-AllCoherent :
    (s : Reservation) (now : ℕ) (db : Db) → AllCoherent db → After AllCoherent (cancel_tx s now db)
unfolding cancel_tx
cancel_tx-AllCoherent s now db =
    finish_cancel-AllCoherent s now cancellable_from db (refl, (refl, tt))

pub redeem_tx-AllCoherent :
    (by : Redeemer) (s : Reservation) (o : Offer) (at : ℕ) (db : Db)
    → AllCoherent db
    → After AllCoherent (redeem_tx by s o at db)
unfolding redeem_tx
redeem_tx-AllCoherent by s o at db a = elim (Bool-cases (reservation_matched s.id can_redeem db)) [
  | inl m ↦ rw m (
      All-replace reservation_key IsCoherent s.id can_redeem (set_redeemed by at) db.reservations a
        λ x e v. elim (Bool-cases (can_redeem x)) [
          | inl t ↦ rw t (redeemed_row by at x v t)
          | inr t ↦ rw t v
        ])
  | inr m ↦ elim (Option-cases (find_reservation s.id db)) [
    | inl e ↦ rw (m, e) tt
    | inr (r, e) ↦ elim (Bool-cases (same machine r.status redeemed)) [
      | inl d ↦ rw (m, e, d) a
      | inr d ↦ rw (m, e, d) tt
    ]
  ]
]
