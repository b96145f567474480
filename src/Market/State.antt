-- ===== src/Market/State.antt =====
-- The rows that backend/src/modules/reservations and payments read and write (their Prisma models
-- are in backend/prisma/schema.prisma), and the database as one value. Identifiers, codes and
-- provider references are numbers; times are milliseconds.
use kurtar.Prelude.{ℕ, Bool, true, false, Option, none, some, List, [], ◌∷◌, ◌==◌, if◌then◌else◌}
use kurtar.Status.Reservation.{ReservationStatus}
use kurtar.Status.Offer.{OfferStatus}
use kurtar.Status.Merchant.{VerificationStatus}
use kurtar.Market.Rows.{find, write, matched}

pub data PaymentStatus : Type 0 where
  intent processing paid failed refund_pending refunded partially_refunded : PaymentStatus

abbrev pub payment_code : PaymentStatus → ℕ
payment_code intent = 0
payment_code processing = 1
payment_code paid = 2
payment_code failed = 3
payment_code refund_pending = 4
payment_code refunded = 5
payment_code partially_refunded = 6

pub data RefundReason : Type 0 where
  user_cancel merchant_cancel admin complaint : RefundReason

-- `RefundStatus` without PENDING, which no service writes.
pub data RefundStatus : Type 0 where
  sent failed done : RefundStatus

pub data ActorType : Type 0 where
  consumer merchant admin : ActorType

pub record Store : Type 0 where
  pub id : ℕ
  pub merchant_id : ℕ

pub record Merchant : Type 0 where
  pub id : ℕ
  pub verification_status : VerificationStatus

pub record BagTemplate : Type 0 where
  pub price_cents : ℕ
  pub original_value_cents_min : ℕ
  pub original_value_cents_max : ℕ

-- A daily offer with the bag template that it is read with.
pub record Offer : Type 0 where
  pub id : ℕ
  pub store_id : ℕ
  pub status : OfferStatus
  pub qty_total : ℕ
  pub qty_reserved : ℕ
  pub qty_redeemed : ℕ
  pub pickup_start_at : ℕ
  pub pickup_end_at : ℕ
  pub bag_template : BagTemplate

pub record Payment : Type 0 where
  pub merchant_oid : ℕ
  pub amount_cents : ℕ
  pub status : PaymentStatus
  pub idempotency_key : ℕ × ℕ
  pub psp_payment_id : Option ℕ
  pub paid_at : Option ℕ

-- A reservation with its payment. `payments.reservationId` is unique and both are created in one
-- transaction, so the payment shares the reservation's identifier; a missing payment is the broken
-- invariant that the services test for.
pub record Reservation : Type 0 where
  pub id : ℕ
  pub code : ℕ
  pub user_id : ℕ
  pub offer_id : ℕ
  pub store_id : ℕ
  pub qty : ℕ
  pub unit_price_cents : ℕ
  pub total_cents : ℕ
  pub status : ReservationStatus
  pub cancel_deadline_at : ℕ
  pub redeemed_at : Option ℕ
  pub redeemed_by_actor_type : Option ActorType
  pub redeemed_by_user_id : Option ℕ
  pub redeemed_by_merchant_user_id : Option ℕ
  pub payment : Option Payment

pub record Refund : Type 0 where
  pub payment_id : ℕ
  pub amount_cents : ℕ
  pub reason : RefundReason
  pub psp_refund_id : Option ℕ
  pub status : RefundStatus
  pub requested_by_type : ActorType

-- The outbox events of these services; `scheduled_for` defers a delivery.
pub data Event : Type 0 where
  reservation_confirmed :
      (reservation_id user_id store_id offer_id code pickup_start_at pickup_end_at : ℕ) → Event
  reservation_redeemed : (reservation_id user_id store_id scheduled_for : ℕ) → Event
  reservation_redeemed_impact :
      (reservation_id user_id store_id qty total_cents original_value_cents_min
        original_value_cents_max : ℕ)
      → Event

pub record Db : Type 0 where
  pub merchants : List Merchant
  pub stores : List Store
  pub offers : List Offer
  pub reservations : List Reservation
  pub refunds : List Refund
  pub webhook_events : List ℕ
  pub outbox : List Event

pub data Error : Type 0 where
  offer_not_found offer_unavailable code_collision unique_violation : Error
  reservation_not_found not_owner not_cancellable not_refundable : Error
  no_payment_row payment_provider_unavailable : Error
  not_yours pickup_not_started pickup_window_passed : Error
  not_redeemable : ReservationStatus → Error

abbrev pub reservation_key : Reservation → ℕ
reservation_key r = r.id

abbrev pub offer_key : Offer → ℕ
offer_key o = o.id

abbrev pub find_reservation : ℕ → Db → Option Reservation
find_reservation id db = find reservation_key id db.reservations

abbrev pub find_offer : ℕ → Db → Option Offer
find_offer id db = find offer_key id db.offers

-- `tx.reservation.updateMany({ where: { id, <guard> }, data })`.
abbrev pub write_reservation : ℕ → (Reservation → Bool) → (Reservation → Reservation) → Db → Db
write_reservation id guard data_ db = record db {
  reservations = write reservation_key id guard data_ db.reservations;
}

-- Whether its `count` is positive.
abbrev pub reservation_matched : ℕ → (Reservation → Bool) → Db → Bool
reservation_matched id guard db = matched reservation_key id guard db.reservations

abbrev pub includes_payment : List PaymentStatus → PaymentStatus → Bool
includes_payment [] s = false
includes_payment (x ∷ xs) s =
    if payment_code x == payment_code s then true else includes_payment xs s

-- `where: { id: payment.id, status: { in: statuses } }`, read through the payment's reservation.
abbrev pub payment_in : List PaymentStatus → Reservation → Bool
payment_in statuses r = elim r.payment [
  | none ↦ false
  | some p ↦ includes_payment statuses p.status
]

abbrev pub map_payment : (Payment → Payment) → Reservation → Reservation
map_payment f r = record r { payment = elim r.payment [ none ↦ none | some p ↦ some (f p) ] }

abbrev pub set_payment_status : PaymentStatus → Reservation → Reservation
set_payment_status s = map_payment (λ p. record p { status = s })

abbrev pub set_status : ReservationStatus → Reservation → Reservation
set_status s r = record r { status = s }

-- `["INTENT", "PROCESSING"]`.
abbrev pub live_statuses : List PaymentStatus
live_statuses = intent ∷ processing ∷ []
