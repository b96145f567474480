-- ===== src/Market/Coherence/Fanout.antt =====
-- reservations.service.ts, `cancelAllForOffer`: each turn of the fan-out keeps reservations and
-- payments coherent, however old the row that it read.
use kurtar.Prelude.{ℕ, ◌≡◌, true, false, some, arith, Bool-cases, Option-cases, inl, inr}
use kurtar.Status.{same}
use kurtar.Status.Reservation.{machine, pending_payment, cancelled_by_merchant, expired}
use kurtar.Market.State.{
  Db, Reservation, reservation_key, write_reservation, reservation_matched, payment_in, map_payment,
  live_statuses, find_reservation,
}
use kurtar.Market.Stock.{release}
use kurtar.Market.Reservations.Create.{expirable_from}
use kurtar.Market.Fanout.{fan_out_one, status_in, cancelled_by_merchant_from}
use kurtar.Prelude.{◌∙◌, sym, Option}
use kurtar.Market.Rows.Laws.{find-All}
use kurtar.Market.Coherence.{AllCoherent, IsCoherent, All-replace}
use kurtar.Market.Coherence.Steps.{
  matched₂, two_writes-AllCoherent, live_expires, merchant_row, fail, live_forces,
}

live_pending :
    (x : Reservation)
    → IsCoherent x
    → payment_in live_statuses x ≡ true
    → same machine x.status pending_payment ≡ true
live_pending x c t = ground arith

module _ (offer_id : ℕ) (s x : Reservation) (db : Db) (a : AllCoherent db)
    (e : find_reservation s.id db ≡ some x) where
  -- The payment's update alone, when the row's payment is not live.
  idle-AllCoherent :
      (payment_in live_statuses x ≡ true → ⊥)
      → AllCoherent (write_reservation s.id (payment_in live_statuses) (map_payment fail) db)
  idle-AllCoherent idle =
      All-replace reservation_key IsCoherent s.id (payment_in live_statuses) (map_payment fail)
        db.reservations a
        λ y f v. elim (Bool-cases (payment_in live_statuses y)) [
          | inr t ↦ rw t v
          | inl t ↦
              let same_row : y ≡ x = some-injective y x (sym f ∙ e) in
              absurd (idle (rw same_row at t))
        ]
    where
      some-injective : (y z : Reservation) → ◌≡◌ {A = Option Reservation} (some y) (some z) → y ≡ z
      some-injective y z p = cc

  missed_pending :
      reservation_matched s.id
          (status_in expirable_from)
          (write_reservation s.id (payment_in live_statuses) (map_payment fail) db)
        ≡ false
      → payment_in live_statuses x ≡ true
      → ⊥
  missed_pending m t =
      let c = find-All reservation_key IsCoherent s.id db.reservations x a e in
      let n =
        matched₂ db s.id (payment_in live_statuses) (status_in expirable_from) fail expired a x e in
      let forced = live_forces x c t in cc

  -- One turn keeps coherence, whatever happened since the candidate was read: the row has not gone
  -- back to pending.
  pub fan_out_one-AllCoherent :
      (same machine s.status pending_payment ≡ false
        → same machine x.status pending_payment ≡ false)
      → AllCoherent (fan_out_one offer_id s db).1
  unfolding fan_out_one release
  fan_out_one-AllCoherent onward = elim (Option-cases s.payment) [
    | inl n ↦ rw (n, fan_out_one) a
    | inr (p, n) ↦
        let db1 = write_reservation s.id (payment_in live_statuses) (map_payment fail) db in
        elim (Bool-cases (same machine s.status pending_payment)) [
          | inl t ↦ elim (Bool-cases (reservation_matched s.id (status_in expirable_from) db1)) [
            | inl m ↦
                rw (n, t, fan_out_one)
                  (rw m (
                    two_writes-AllCoherent db s.id (payment_in live_statuses)
                      (status_in expirable_from) fail expired a m λ y _ v g. live_expires y v g))
            | inr m ↦ rw (n, t, fan_out_one) (rw m (idle-AllCoherent (missed_pending m)))
          ]
          | inr t ↦
              elim (Bool-cases
                (reservation_matched s.id (status_in cancelled_by_merchant_from) db1)) [
                  | inl m ↦
                      rw (n, t, fan_out_one)
                        (rw m (
                          two_writes-AllCoherent db s.id (payment_in live_statuses)
                            (status_in cancelled_by_merchant_from) fail cancelled_by_merchant a m
                            λ y _ v g. merchant_row y v g))
                  | inr m ↦
                      let c = find-All reservation_key IsCoherent s.id db.reservations x a e in
                      let later = onward t in
                      let idle : payment_in live_statuses x ≡ true → ⊥ =
                        λ l. let pending = live_pending x c l in cc in
                      rw (n, t, fan_out_one) (rw m (idle-AllCoherent idle))
                ]
        ]
  ]
