-- ===== src/Market/Reservations/Redeem/Outcomes.antt =====
-- reservations.service.ts, `redeem`: what the transaction and the whole method answer.
use kurtar.Prelude.{
  ℕ, ◌≡◌, refl, ap, ◌∙◌, inl, inr, true, false, not, Option, some, ltb, Result, ok, err, arith,
  Bool-cases, if◌then◌else◌,
}
use kurtar.Status.{same}
use kurtar.Status.Reservation.{machine, confirmed, redeemed}
use kurtar.Market.Rows.Laws.{found-matched, find-key}
use kurtar.Market.Rows.Compose.{find-write_same, write-one}
use kurtar.Market.State.{
  Db, Offer, Reservation, Error, reservation_key, find_reservation, find_offer, write_reservation,
  not_redeemable, not_yours, pickup_not_started, pickup_window_passed,
}
use kurtar.Market.Reservations.Redeem.{
  Redeemer, redeem_tx, redeem, redeem_read, redeem_check, check_window, may_redeem, can_redeem,
  set_redeemed, add_redeemed, publish, rating_invite, impact_record,
}

-- The database after a redemption: the row stamped, the offer's counter moved, two events out.
abbrev pub redeemed_db : Redeemer → Reservation → Offer → ℕ → Db → Db
redeemed_db by snapshot offer attempted_at db = publish (impact_record snapshot offer) (
    publish (rating_invite snapshot attempted_at) (
      add_redeemed snapshot.offer_id snapshot.qty
        (write_reservation snapshot.id (λ _. true) (set_redeemed by attempted_at) db)))

module _ (by : Redeemer) (s x : Reservation) (o : Offer) (attempted_at : ℕ) (db : Db)
    (e : find_reservation s.id db ≡ some x) where
  -- When the reservation is in the table, the transaction redeems it if it is confirmed (the row is
  -- stamped, the offer's counter moved and both events published in the same step); answers the
  -- stored time and changes nothing if it is redeemed; and throws its status otherwise.
  pub redeem_tx-decides : redeem_tx by s o attempted_at db ≡ (
      if same machine x.status confirmed
      then ok (some attempted_at, redeemed_db by s o attempted_at db)
      else (if same machine x.status redeemed
          then ok (x.redeemed_at, db)
          else err (not_redeemable x.status)))
  unfolding redeem_tx
  redeem_tx-decides =
      let m = found-matched reservation_key s.id can_redeem db.reservations x e in
      elim (Bool-cases (same machine x.status confirmed)) [
        | inl t ↦
            let c : can_redeem x ≡ true = ground arith in
            let w =
              write-one reservation_key s.id can_redeem (set_redeemed by attempted_at)
                (set_redeemed by attempted_at) db.reservations x e (rw c) in
            rw (m, c, t, w)
        | inr t ↦
            let c : can_redeem x ≡ false = ground arith in
            elim (Bool-cases (same machine x.status redeemed)) [
              | inl d ↦ rw (m, c, t, e, d)
              | inr d ↦ rw (m, c, t, e, d)
            ]
      ]

redeemed-found :
    (by : Redeemer) (s x : Reservation) (o : Offer) (at : ℕ) (db : Db)
    → find_reservation s.id db ≡ some x
    → find_reservation s.id (redeemed_db by s o at db) ≡ some (set_redeemed by at x)
redeemed-found by s x o at db e =
    find-write_same reservation_key s.id (λ _. true) (set_redeemed by at) db.reservations x
      (λ _. refl) e

-- When the transaction of `redeem` succeeded on a reservation in the table, running it again on the
-- same reservation right after, by whoever, whatever was read before and at whatever time, answers
-- the time that the first one answered and changes nothing.
pub redeem_tx-again :
    (by by' : Redeemer) (s s' x : Reservation) (o o' : Offer) (at at' : ℕ) (answer : Option ℕ)
    (db db' : Db)
    → find_reservation s.id db ≡ some x
    → s'.id ≡ s.id
    → redeem_tx by s o at db ≡ ok (answer, db')
    → redeem_tx by' s' o' at' db' ≡ ok (answer, db')
redeem_tx-again by by' s s' x o o' at at' answer db db' e same_id r =
    let first = redeem_tx-decides by s x o at db e in
    elim (Bool-cases (same machine x.status confirmed)) [
      | inl t ↦
          let now_db : ◌≡◌ {A = Result Error (Option ℕ × Db)}
              (ok (some at, redeemed_db by s o at db)) (ok (answer, db')) =
            rw (first, t) at r in
          let a : answer ≡ some at = cc in
          let d : db' ≡ redeemed_db by s o at db = cc in
          let found : find_reservation s'.id db' ≡ some (set_redeemed by at x) =
            rw (d, same_id) (redeemed-found by s x o at db e) in
          rw a (redeem_tx-decides by' s' (set_redeemed by at x) o' at' db' found)
      | inr t ↦ elim (Bool-cases (same machine x.status redeemed)) [
        | inl d ↦
            let now_db : ◌≡◌ {A = Result Error (Option ℕ × Db)} (ok (x.redeemed_at, db))
                (ok (answer, db')) =
              rw (first, t, d) at r in
            let a : answer ≡ x.redeemed_at = cc in
            let same_db : db' ≡ db = cc in
            let found : find_reservation s'.id db' ≡ some x = rw (same_db, same_id) e in
            redeem_tx-decides by' s' x o' at' db' found ∙ rw (t, d, a)
        | inr d ↦
            let impossible : ◌≡◌ {A = Result Error (Option ℕ × Db)} (err (not_redeemable x.status))
                (ok (answer, db')) =
              rw (first, t, d) at r in
            cc
      ]
    ]

-- When the reservation and its offer are in the tables and nothing runs in between, the whole method
-- refuses whoever is not entitled; answers the stored time, and changes nothing, when the
-- reservation is redeemed already; throws the status when it is neither that nor confirmed; refuses
-- before the pickup starts and after it ends; and otherwise redeems.
pub redeem-decides :
    (by : Redeemer) (id now at : ℕ) (db : Db) (r : Reservation) (o : Offer)
    → find_reservation id db ≡ some r
    → find_offer r.offer_id db ≡ some o
    → redeem by id now at db ≡ (
        if not (may_redeem by r db)
        then (err not_yours, db)
        else (if same machine r.status redeemed
            then (ok r.redeemed_at, db)
            else (if not (same machine r.status confirmed)
                then (err (not_redeemable r.status), db)
                else (if ltb now o.pickup_start_at
                    then (err pickup_not_started, db)
                    else (if ltb o.pickup_end_at now
                        then (err pickup_window_passed, db)
                        else (ok (some at), redeemed_db by r o at db))))))
unfolding redeem redeem_read redeem_check check_window
redeem-decides by id now at db r o e f =
    let key : r.id ≡ id = find-key reservation_key id db.reservations r e in
    let tx = redeem_tx-decides by r r o at db (ap (λ i. find_reservation i db) key ∙ e) in
    elim (Bool-cases (may_redeem by r db)) [
      | inr a ↦ rw (e, f, a, redeem, redeem_read, redeem_check)
      | inl a ↦ elim (Bool-cases (same machine r.status redeemed)) [
        | inl b ↦ rw (e, f, a, b, redeem, redeem_read, redeem_check)
        | inr b ↦ elim (Bool-cases (same machine r.status confirmed)) [
          | inr c ↦
              let n : can_redeem r ≡ false = ground arith in
              rw (e, f, a, b, c, n, redeem, redeem_read, redeem_check, check_window)
          | inl c ↦
              let n : can_redeem r ≡ true = ground arith in
              elim (Bool-cases (ltb now o.pickup_start_at)) [
                | inl d ↦ rw (e, f, a, b, c, n, d, redeem, redeem_read, redeem_check, check_window)
                | inr d ↦ elim (Bool-cases (ltb o.pickup_end_at now)) [
                  | inl g ↦
                      rw (e, f, a, b, c, n, d, g, redeem, redeem_read, redeem_check, check_window)
                  | inr g ↦ rw (
                    e, f, a, b, c, n, d, g, redeem, redeem_read, redeem_check, check_window, tx, c,
                  )
                ]
              ]
        ]
      ]
    ]
