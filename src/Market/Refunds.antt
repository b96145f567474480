-- ===== src/Market/Refunds.antt =====
-- backend/src/modules/reservations/reservations.service.ts: `refundForCancellation`, `refundMany` and
-- `refundRedeemed`. The payment provider and the faults of the database are arguments.
pub mod Once
pub mod Requests
pub mod Retries
pub mod Cases
use kurtar.Prelude.{
  ℕ, Bool, true, false, ◌||◌, Option, none, some, List, [], ◌∷◌, ◌++◌, if◌then◌else◌, Result, ok,
  err,
}
use kurtar.Status.{same}
use kurtar.Status.Reservation.{ReservationStatus, machine, redeemed, no_show}
use kurtar.Market.Rows.{find, write, matched}
use kurtar.Market.State.{
  Db, Reservation, Payment, PaymentStatus, Refund, RefundReason, RefundStatus, ActorType, Error,
  find_reservation, write_reservation, reservation_matched, payment_in, set_payment_status, paid,
  refund_pending, refunded, sent, done, consumer, merchant, admin, complaint, reservation_not_found,
  no_payment_row, not_refundable,
}

-- `facade.refund(merchantOid, amountCents)`: a refund reference, or the message of the exception.
abbrev pub RefundCall : Type 0
RefundCall = ℕ → ℕ → Result ℕ ℕ

-- One call of it, as the provider sees it. Each operation returns the calls that it made, in order.
pub record RefundRequest : Type 0 where
  pub merchant_oid : ℕ
  pub amount_cents : ℕ

-- Which of the bookkeeping writes fail: the FAILED row, the transaction that records a refund as
-- done, the fallback row, the fallback payment update, and the release of `refundRedeemed`'s claim.
pub record Faults : Type 0 where
  pub failed_row : Bool
  pub books : Bool
  pub fallback_row : Bool
  pub fallback_payment : Bool
  pub unclaim : Bool

-- `{ ok: true, refundRef }` or `{ ok: false, error }`.
pub data RefundOutcome : Type 0 where
  succeeded : ℕ → RefundOutcome
  refused : ℕ → RefundOutcome

abbrev pub add_refund : Refund → Db → Db
add_refund refund db = record db { refunds = refund ∷ db.refunds }

-- `payment.updateMany({ where: { id, status: from }, data: { status: "REFUNDED" } })`.
abbrev pub mark_refunded : ℕ → PaymentStatus → Db → Db
mark_refunded payment_id from =
    write_reservation payment_id (payment_in (from ∷ [])) (set_payment_status refunded)

abbrev pub refund_row : ℕ → ℕ → RefundReason → ActorType → Option ℕ → RefundStatus → Refund
refund_row payment_id amount_cents reason requested_by_type psp_refund_id status = record {
  payment_id = payment_id;
  amount_cents = amount_cents;
  reason = reason;
  psp_refund_id = psp_refund_id;
  status = status;
  requested_by_type = requested_by_type;
}

-- The two writes after a provider's success: the transaction, or its `catch`.
unfoldable pub record_refund : Faults → ℕ → PaymentStatus → (RefundStatus → Refund) → Db → Db
record_refund faults payment_id from row db =
    if faults.books
    then (let db1 = if faults.fallback_row then db else add_refund (row sent) db in
        if faults.fallback_payment then db1 else mark_refunded payment_id from db1)
    else mark_refunded payment_id from (add_refund (row done) db)

unfoldable pub refund_for_cancellation :
    RefundCall
    → Faults
    → ℕ
    → ℕ
    → ℕ
    → RefundReason
    → ActorType
    → PaymentStatus
    → Db
    → (RefundOutcome × List RefundRequest) × Db
unfolding record_refund
refund_for_cancellation call faults payment_id merchant_oid amount_cents reason by from db =
    let requests : List RefundRequest =
      (record { merchant_oid = merchant_oid; amount_cents = amount_cents }) ∷ [] in
    elim (call merchant_oid amount_cents) [
      | err message ↦ (
        (refused message, requests),
        if faults.failed_row
            then db
            else add_refund (refund_row payment_id amount_cents reason by none RefundStatus.failed)
                db,
      )
      | ok ref ↦ (
        (succeeded ref, requests),
        record_refund faults payment_id from
            (refund_row payment_id amount_cents reason by (some ref)) db,
      )
    ]

-- An entry of `toRefund`. A payment is named by its reservation.
pub record RefundItem : Type 0 where
  pub reservation_id : ℕ
  pub merchant_oid : ℕ
  pub amount_cents : ℕ

-- `requestedByType` of `refundMany`, for its two reasons.
abbrev pub requested_by : RefundReason → ActorType
requested_by RefundReason.admin = ActorType.admin
requested_by _ = merchant

unfoldable pub refund_many :
    RefundCall
    → Faults
    → List RefundItem
    → RefundReason
    → Db
    → (List (ℕ × RefundOutcome) × List RefundRequest) × Db
refund_many call faults [] reason db = (([], []), db)
refund_many call faults (item ∷ items) reason db =
    let ((outcome, requests), db1) =
      refund_for_cancellation call faults item.reservation_id item.merchant_oid item.amount_cents
        reason (requested_by reason) paid db in
    let ((outcomes, later), db2) = refund_many call faults items reason db1 in
    (((item.reservation_id, outcome) ∷ outcomes, requests ++ later), db2)

-- The guarded claim PAID → REFUND_PENDING, and its release.
abbrev pub claim_payment : ℕ → Db → Db
claim_payment id = write_reservation id (payment_in (paid ∷ [])) (set_payment_status refund_pending)

abbrev pub unclaim_payment : ℕ → Db → Db
unclaim_payment id =
    write_reservation id (payment_in (refund_pending ∷ [])) (set_payment_status paid)

-- What follows the claim of a redeemed reservation's payment.
unfoldable pub refund_claimed :
    RefundCall → Faults → ℕ → Payment → Db → (RefundOutcome × List RefundRequest) × Db
refund_claimed call faults id payment db =
    let ((outcome, requests), db1) =
      refund_for_cancellation call faults id payment.merchant_oid payment.amount_cents complaint
        ActorType.admin refund_pending db in
    elim outcome [
      | succeeded ref ↦ ((succeeded ref, requests), db1)
      | refused message ↦
          ((refused message, requests), if faults.unclaim then db1 else unclaim_payment id db1)
    ]

unfoldable pub refund_payment :
    RefundCall
    → Faults
    → ℕ
    → Option Payment
    → ReservationStatus
    → Db
    → (Result Error RefundOutcome × List RefundRequest) × Db
refund_payment call faults id none status db = ((err no_payment_row, []), db)
refund_payment call faults id (some payment) status db =
    if same machine status redeemed || same machine status no_show
    then (if reservation_matched id (payment_in (paid ∷ [])) db
        then (let ((outcome, requests), db1) =
              refund_claimed call faults id payment (claim_payment id db) in
            ((ok outcome, requests), db1))
        else ((err not_refundable, []), db))
    else ((err not_refundable, []), db)

unfoldable pub refund_redeemed :
    RefundCall → Faults → ℕ → Db → (Result Error RefundOutcome × List RefundRequest) × Db
unfolding find refund_payment
refund_redeemed call faults id db = elim (find_reservation id db) [
  | none ↦ ((err reservation_not_found, []), db)
  | some r ↦ refund_payment call faults id r.payment r.status db
]
