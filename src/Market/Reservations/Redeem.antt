-- ===== src/Market/Reservations/Redeem.antt =====
-- reservations.service.ts: `redeem`, by the consumer or by the merchant.
pub mod Outcomes
use kurtar.Prelude.{
  ℕ, ◌+◌, ◌*◌, Bool, true, false, not, Option, none, some, List, [], ◌∷◌, ltb, ◌==◌, if◌then◌else◌,
  Result, ok, err, ◌>>=◌, ◌>>◌, guard,
}
use kurtar.Status.{same, includes, allowed_from_statuses_for}
use kurtar.Status.Reservation.{ReservationStatus, machine, redeemed}
use kurtar.Market.Rows.{find, write, matched}
use kurtar.Market.State.{
  Db, Store, Offer, Reservation, Error, Event, ActorType, find_reservation, find_offer,
  write_reservation, reservation_matched, offer_key, consumer, merchant, reservation_not_found,
  offer_not_found, not_yours, not_redeemable, pickup_not_started, pickup_window_passed,
  reservation_redeemed, reservation_redeemed_impact,
}
use kurtar.Market.Reservations.{transaction}

abbrev pub redeemable_from : List ReservationStatus
redeemable_from = allowed_from_statuses_for machine redeemed

abbrev pub rating_invite_delay_ms : ℕ
rating_invite_delay_ms = 2 * 60 * 60 * 1000

pub data Redeemer : Type 0 where
  by_consumer : (user_id : ℕ) → Redeemer
  by_merchant : (merchant_user_id merchant_id : ℕ) → Redeemer

abbrev pub actor_type : Redeemer → ActorType
actor_type (by_consumer user_id) = consumer
actor_type (by_merchant merchant_user_id merchant_id) = merchant

abbrev pub redeemer_user_id : Redeemer → Option ℕ
redeemer_user_id (by_consumer user_id) = some user_id
redeemer_user_id (by_merchant merchant_user_id merchant_id) = none

abbrev pub redeemer_merchant_user_id : Redeemer → Option ℕ
redeemer_merchant_user_id (by_consumer user_id) = none
redeemer_merchant_user_id (by_merchant merchant_user_id merchant_id) = some merchant_user_id

-- The consumer owns the reservation, or the merchant owns its store.
unfoldable pub may_redeem : Redeemer → Reservation → Db → Bool
unfolding find
may_redeem (by_consumer user_id) r db = r.user_id == user_id
may_redeem (by_merchant merchant_user_id merchant_id) r db =
    elim (find (λ (s : Store). s.id) r.store_id db.stores) [
      | none ↦ false
      | some s ↦ s.merchant_id == merchant_id
    ]

abbrev pub can_redeem : Reservation → Bool
can_redeem r = includes machine redeemable_from r.status

abbrev pub set_redeemed : Redeemer → ℕ → Reservation → Reservation
set_redeemed by attempted_at r = record r {
  status = redeemed;
  redeemed_at = some attempted_at;
  redeemed_by_actor_type = some (actor_type by);
  redeemed_by_user_id = redeemer_user_id by;
  redeemed_by_merchant_user_id = redeemer_merchant_user_id by;
}

-- `qtyRedeemed: { increment: reservation.qty }`.
abbrev pub add_redeemed : ℕ → ℕ → Db → Db
add_redeemed offer_id qty db = record db {
  offers =
      write offer_key offer_id (λ _. true) (λ o. record o { qty_redeemed = o.qty_redeemed + qty })
        db.offers;
}

abbrev pub publish : Event → Db → Db
publish event db = record db { outbox = event ∷ db.outbox }

abbrev pub rating_invite : Reservation → ℕ → Event
rating_invite r attempted_at =
    reservation_redeemed r.id r.user_id r.store_id (attempted_at + rating_invite_delay_ms)

abbrev pub impact_record : Reservation → Offer → Event
impact_record r o =
    reservation_redeemed_impact r.id r.user_id r.store_id r.qty r.total_cents
      o.bag_template.original_value_cents_min o.bag_template.original_value_cents_max

-- The transaction, over the rows that were read before it. `redeemedAt!` is the column as it is.
unfoldable pub redeem_tx : Redeemer → Reservation → Offer → ℕ → Db → Result Error (Option ℕ × Db)
unfolding write matched find
redeem_tx by snapshot offer attempted_at db =
    if reservation_matched snapshot.id can_redeem db
    then ok (
      some attempted_at,
      publish (impact_record snapshot offer) (
          publish (rating_invite snapshot attempted_at) (
            add_redeemed snapshot.offer_id snapshot.qty
              (write_reservation snapshot.id can_redeem (set_redeemed by attempted_at) db))),
    )
    else elim (find_reservation snapshot.id db) [
      | none ↦ err reservation_not_found
      | some current ↦
          if same machine current.status redeemed
          then ok (current.redeemed_at, db)
          else err (not_redeemable current.status)
    ]

-- The checks of the status and the window, in the source's order.
unfoldable pub check_window : Reservation → Offer → ℕ → Result Error (Unit {0})
check_window r o now = do
  guard (can_redeem r) (not_redeemable r.status)
  guard (not (ltb now o.pickup_start_at)) pickup_not_started
  guard (not (ltb o.pickup_end_at now)) pickup_window_passed

-- The reads before the transaction: either the answer, for a reservation redeemed before, or the
-- rows to go on with. That the offer exists is a foreign key.
pub data Reading : Type 0 where
  already : Option ℕ → Reading
  redeemable : Reservation → Offer → Reading

unfoldable pub redeem_check : Redeemer → Reservation → Offer → ℕ → Db → Result Error Reading
unfolding may_redeem check_window
redeem_check by r o now db =
    if may_redeem by r db
    then (if same machine r.status redeemed
        then ok (already r.redeemed_at)
        else (check_window r o now >> ok (redeemable r o)))
    else err not_yours

unfoldable pub redeem_read : Redeemer → ℕ → ℕ → Db → Result Error Reading
unfolding find redeem_check
redeem_read by id now db = elim (find_reservation id db) [
  | none ↦ err reservation_not_found
  | some r ↦ elim (find_offer r.offer_id db) [
    | none ↦ err offer_not_found
    | some o ↦ redeem_check by r o now db
  ]
]

-- The whole method, when nothing runs in between: `now` is the clock at the checks, and
-- `attempted_at` the clock before the transaction.
unfoldable pub redeem : Redeemer → ℕ → ℕ → ℕ → Db → Result Error (Option ℕ) × Db
unfolding redeem_read redeem_tx
redeem by id now attempted_at db = elim (redeem_read by id now db) [
  | err e ↦ (err e, db)
  | ok reading ↦ elim reading [
    | already redeemed_at ↦ (ok redeemed_at, db)
    | redeemable r o ↦ transaction (redeem_tx by r o attempted_at db) db
  ]
]
