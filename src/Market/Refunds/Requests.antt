-- ===== src/Market/Refunds/Requests.antt =====
-- reservations.service.ts, `refundForCancellation`: the one call that it makes of the provider.
use kurtar.Prelude.{ℕ, ◌≡◌, List, Result-cases, [], ◌∷◌, inl, inr}
use kurtar.Market.State.{Db, Payment, PaymentStatus, RefundReason, ActorType}
use kurtar.Market.Refunds.{RefundRequest, RefundCall, Faults, refund_for_cancellation}

-- The one call that the provider sees for a payment.
abbrev pub asked : Payment → List RefundRequest
asked p = (record { merchant_oid = p.merchant_oid; amount_cents = p.amount_cents }) ∷ []

pub refund_for_cancellation-asked :
    (call : RefundCall) (faults : Faults) (id : ℕ) (p : Payment) (reason : RefundReason)
    (by : ActorType) (from : PaymentStatus) (db : Db)
    → (refund_for_cancellation call faults id p.merchant_oid p.amount_cents reason by from db).0.1
      ≡ asked p
unfolding refund_for_cancellation
refund_for_cancellation-asked call faults id p reason by from db =
    elim (Result-cases (call p.merchant_oid p.amount_cents)) [
      | inl (message, e) ↦ rw (e, refund_for_cancellation)
      | inr (ref, e) ↦ rw (e, refund_for_cancellation)
    ]
