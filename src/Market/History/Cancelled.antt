-- ===== src/Market/History/Cancelled.antt =====
-- A cancellation is final: whatever happens afterwards, the reservation is neither cancelled again,
-- which would give its bags back twice, nor redeemed.
use kurtar.Prelude.{
  ℕ, ◌≡◌, refl, ◌∙◌, Bool, true, some, Result, ok, err, err-ok, arith, Bool-cases, inl, inr,
}
use kurtar.Status.{same}
use kurtar.Status.Reservation.{machine, confirmed, cancelled_by_user}
use kurtar.Market.Rows.Compose.{find-write_same}
use kurtar.Market.State.{
  Db, Error, Offer, Reservation, reservation_key, find_reservation, not_cancellable, not_redeemable,
}
use kurtar.Market.Stock.{release}
use kurtar.Market.Reservations.Cancel.{cancel_tx}
use kurtar.Market.Reservations.Cancel.Outcomes.{
  cancel_tx-decides, cancelled, cancelled_db, is_cancellable,
}
use kurtar.Market.Reservations.Redeem.{Redeemer, redeem_tx}
use kurtar.Market.Reservations.Redeem.Outcomes.{redeem_tx-decides}
use kurtar.Market.History.{Reach}
use kurtar.Market.History.Orders.{Reach-final}

pub cancelled-found :
    (s x : Reservation) (now : ℕ) (was : Bool) (db db' : Db)
    → find_reservation s.id db ≡ some x
    → cancel_tx s now db ≡ ok (was, db')
    → find_reservation s.id db' ≡ some (cancelled x)
unfolding release
cancelled-found s x now was db db' e t =
    let decided = cancel_tx-decides now s x db e in
    elim (Bool-cases (is_cancellable now x)) [
      | inr c ↦ absurd (err-ok not_cancellable (was, db') (rw (decided, c) at t))
      | inl c ↦
          let done : ◌≡◌ {A = Result Error (Bool × Db)}
              (ok (same machine x.status confirmed, cancelled_db s db)) (ok (was, db')) =
            rw (decided, c) at t in
          let same_db : db' ≡ cancelled_db s db = cc in
          rw same_db (
            find-write_same reservation_key s.id (λ _. true) cancelled db.reservations x
              (λ y. ground arith) e)
    ]

-- Once the transaction of `cancel` has cancelled a reservation of the table, then after anything
-- else that happens, a second cancellation throws that it cannot be cancelled and a redemption
-- throws that it is cancelled, at whatever times; so neither changes the database.
pub cancel_tx-final :
    (s x : Reservation) (now now' at : ℕ) (was : Bool) (by : Redeemer) (o : Offer)
    (db db' after : Db)
    → find_reservation s.id db ≡ some x
    → cancel_tx s now db ≡ ok (was, db')
    → Reach db' after
    → (cancel_tx s now' after ≡ err not_cancellable)
      × (redeem_tx by s o at after ≡ err (not_redeemable cancelled_by_user))
cancel_tx-final s x now now' at was by o db db' after e t h =
    let found = cancelled-found s x now was db db' e t in
    let (r, e', ended) = Reach-final db' after s.id (cancelled x) h found refl in
    (
      cancel_tx-decides now' s r after e' ∙ rw ended,
      redeem_tx-decides by s r o at after e' ∙ rw ended,
    )
