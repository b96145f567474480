-- ===== src/Market/Reservations/Create.antt =====
-- reservations.service.ts: `create`, with its retry loop and its compensation.
pub mod Approval
pub mod Whole
pub mod Compensation
pub mod Outcomes
use kurtar.Prelude.{
  ℕ, zero, suc, ◌+◌, ◌-◌, ◌*◌, Bool, true, false, not, ◌&&◌, Option, none, some, List, [], ◌∷◌, ltb,
  ◌==◌, if◌then◌else◌, Result, ok, err, ◌>>=◌, ◌>>◌, guard,
}
use kurtar.Status.{includes, allowed_from_statuses_for}
use kurtar.Status.Reservation.{ReservationStatus, machine, pending_payment, expired}
use kurtar.Market.Rows.{find, write, matched, any}
use kurtar.Market.State.{
  Db, Offer, Reservation, Payment, Error, find_offer, write_reservation, reservation_matched,
  payment_in, set_payment_status, set_status, map_payment, intent, failed, offer_not_found,
  offer_unavailable, code_collision, unique_violation, payment_provider_unavailable,
}
use kurtar.Market.Stock.{claim, release}
use kurtar.Market.Reservations.{transaction}

abbrev pub max_code_attempts : ℕ
max_code_attempts = 5

abbrev pub cancel_deadline_before_pickup_ms : ℕ
cancel_deadline_before_pickup_ms = 2 * 60 * 60 * 1000

-- What an attempt draws: the new row's identifier, `generateReservationCode()` and
-- `generateMerchantOid(reservation.id)`.
pub record Fresh : Type 0 where
  pub id : ℕ
  pub code : ℕ
  pub merchant_oid : ℕ

pub record Committed : Type 0 where
  pub reservation_id : ℕ
  pub code : ℕ
  pub offer_id : ℕ
  pub qty : ℕ
  pub total_cents : ℕ
  pub merchant_oid : ℕ
  pub idempotency_key : ℕ × ℕ

abbrev pub uses_code : ℕ → Reservation → Bool
uses_code code r = r.code == code

-- The unique columns `reservations.id`, `payments.merchantOid` and `payments.idempotencyKey`.
abbrev pub uses_keys : Fresh → Reservation → Bool
uses_keys fresh r =
    if r.id == fresh.id
    then true
    else elim r.payment [ none ↦ false | some p ↦ p.merchant_oid == fresh.merchant_oid ]

abbrev pub new_payment : Fresh → ℕ → Payment
new_payment fresh total_cents = record {
  merchant_oid = fresh.merchant_oid;
  amount_cents = total_cents;
  status = intent;
  idempotency_key = (fresh.merchant_oid, fresh.id);
  psp_payment_id = none;
  paid_at = none;
}

-- The two rows that the transaction inserts. Times are well past two hours after the epoch.
abbrev pub new_reservation : ℕ → ℕ → Offer → ℕ → Fresh → Reservation
new_reservation user_id offer_id offer qty fresh = record {
  id = fresh.id;
  code = fresh.code;
  user_id = user_id;
  offer_id = offer_id;
  store_id = offer.store_id;
  qty = qty;
  unit_price_cents = offer.bag_template.price_cents;
  total_cents = offer.bag_template.price_cents * qty;
  status = pending_payment;
  cancel_deadline_at = offer.pickup_start_at - cancel_deadline_before_pickup_ms;
  redeemed_at = none;
  redeemed_by_actor_type = none;
  redeemed_by_user_id = none;
  redeemed_by_merchant_user_id = none;
  payment = some (new_payment fresh (offer.bag_template.price_cents * qty));
}

abbrev pub committed : Reservation → Fresh → Committed
committed r fresh = record {
  reservation_id = r.id;
  code = r.code;
  offer_id = r.offer_id;
  qty = r.qty;
  total_cents = r.total_cents;
  merchant_oid = fresh.merchant_oid;
  idempotency_key = (fresh.merchant_oid, fresh.id);
}

-- The inserts after a successful claim. New rows stand first.
unfoldable pub insert_reservation : ℕ → ℕ → Offer → ℕ → Fresh → Db → Result Error (Committed × Db)
insert_reservation user_id offer_id offer qty fresh db = do
  guard (not (any (uses_code fresh.code) db.reservations)) code_collision
  guard (not (any (uses_keys fresh) db.reservations)) unique_violation
  let row = new_reservation user_id offer_id offer qty fresh
  ok (committed row fresh, record db { reservations = row ∷ db.reservations })

-- The body of the transaction of `createReservationWithRetry`.
unfoldable pub create_tx : ℕ → ℕ → ℕ → Fresh → Db → Result Error (Committed × Db)
unfolding claim insert_reservation
create_tx user_id offer_id qty fresh db = elim (find_offer offer_id db) [
  | none ↦ err offer_not_found
  | some offer ↦
      let (claimed, db1) = claim offer_id qty db in
      if claimed
      then insert_reservation user_id offer_id offer qty fresh db1
      else err offer_unavailable
]

abbrev pub is_code_collision : Error → Bool
is_code_collision code_collision = true
is_code_collision _ = false

-- The loop with `left` attempts to go; a fresh draw each time, and the last collision is thrown.
unfoldable pub create_with_retry : ℕ → ℕ → ℕ → (ℕ → Fresh) → ℕ → Db → Result Error (Committed × Db)
unfolding create_tx
create_with_retry user_id offer_id qty fresh zero db = err code_collision
create_with_retry user_id offer_id qty fresh (suc left) db =
    let rest = create_with_retry user_id offer_id qty fresh left db in
    elim (create_tx user_id offer_id qty (fresh left) db) [
      | ok result ↦ ok result
      | err e ↦ if is_code_collision e && ltb 0 left then rest else err e
    ]

abbrev pub expirable_from : List ReservationStatus
expirable_from = allowed_from_statuses_for machine expired

-- `compensateFailedIntent`.
unfoldable pub compensate_failed_intent : Committed → Db → Db
unfolding write matched find release
compensate_failed_intent c db =
    if reservation_matched c.reservation_id (payment_in (intent ∷ [])) db
    then (let db1 =
          write_reservation c.reservation_id (payment_in (intent ∷ [])) (set_payment_status failed)
            db in
        let can_expire = λ (r : Reservation). includes machine expirable_from r.status in
        if reservation_matched c.reservation_id can_expire db1
        then release c.offer_id c.qty
            (write_reservation c.reservation_id can_expire (set_status expired) db1)
        else db1)
    else db

-- `facade.createIntent`: a provider reference and a redirect, or an exception.
abbrev pub IntentCall : Type 0
IntentCall = ℕ → ℕ → ℕ × ℕ → Result ℕ (ℕ × ℕ)

pub record Created : Type 0 where
  pub reservation_id : ℕ
  pub code : ℕ
  pub total_cents : ℕ
  pub merchant_oid : ℕ
  pub redirect_url : ℕ

-- What follows the committed transaction. `lost` says that the best-effort write is lost.
unfoldable pub start_payment : IntentCall → Bool → Committed → Db → Result Error Created × Db
unfolding compensate_failed_intent
start_payment call lost c db = elim (call c.merchant_oid c.total_cents c.idempotency_key) [
  | ok (ref, redirect) ↦ (
    ok (record {
      reservation_id = c.reservation_id;
      code = c.code;
      total_cents = c.total_cents;
      merchant_oid = c.merchant_oid;
      redirect_url = redirect;
    }),
    if lost
        then db
        else write_reservation c.reservation_id (λ _. true)
            (map_payment (λ p. record p { psp_payment_id = some ref })) db,
  )
  | err _ ↦ (err payment_provider_unavailable, compensate_failed_intent c db)
]

unfoldable pub create : IntentCall → Bool → ℕ → ℕ → ℕ → (ℕ → Fresh) → Db → Result Error Created × Db
unfolding create_with_retry start_payment
create call lost user_id offer_id qty fresh db =
    elim (create_with_retry user_id offer_id qty fresh max_code_attempts db) [
      | ok (c, db1) ↦ start_payment call lost c db1
      | err e ↦ (err e, db)
    ]
