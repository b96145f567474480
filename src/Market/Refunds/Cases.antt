-- ===== src/Market/Refunds/Cases.antt =====
-- reservations.service.ts, `refundForCancellation`: whatever the provider and the database do, it
-- adds refund rows and moves the one payment, at most.
use kurtar.Prelude.{ℕ, some, List, Result-cases, Bool-cases, inl, inr}
use kurtar.Market.State.{Db, Refund, RefundReason, ActorType, PaymentStatus, RefundStatus}
use kurtar.Market.Refunds.{
  RefundCall, Faults, mark_refunded, refund_row, record_refund, refund_for_cancellation,
}

module _ (P : Db → Type 0) where
  record_refund_cases :
      (faults : Faults) (id : ℕ) (from : PaymentStatus) (row : RefundStatus → Refund) (db : Db)
      → ((db' : Db) (refunds : List Refund) → P db' → P (record db' { refunds = refunds }))
      → ((db' : Db) → P db' → P (mark_refunded id from db'))
      → P db
      → P (record_refund faults id from row db)
  unfolding record_refund
  record_refund_cases faults id from row db add mark p = elim (Bool-cases faults.books) [
    | inr b ↦ rw b (mark _ (add db _ p))
    | inl b ↦ elim (Bool-cases faults.fallback_row) [
      | inl r ↦ elim (Bool-cases faults.fallback_payment) [
        | inl f ↦ rw (b, r, f) p
        | inr f ↦ rw (b, r, f) (mark _ p)
      ]
      | inr r ↦ elim (Bool-cases faults.fallback_payment) [
        | inl f ↦ rw (b, r, f) (add db _ p)
        | inr f ↦ rw (b, r, f) (mark _ (add db _ p))
      ]
    ]
  ]

  -- A property that refund rows do not touch, and that the payment's update keeps, is kept.
  pub refund_cases :
      (call : RefundCall) (faults : Faults) (id oid amount : ℕ) (reason : RefundReason)
      (by : ActorType) (from : PaymentStatus) (db : Db)
      → ((db' : Db) (refunds : List Refund) → P db' → P (record db' { refunds = refunds }))
      → ((db' : Db) → P db' → P (mark_refunded id from db'))
      → P db
      → P (refund_for_cancellation call faults id oid amount reason by from db).1
  unfolding refund_for_cancellation
  refund_cases call faults id oid amount reason by from db add mark p =
      elim (Result-cases (call oid amount)) [
        | inl (message, e) ↦ elim (Bool-cases faults.failed_row) [
          | inl r ↦ rw (e, r, refund_for_cancellation) p
          | inr r ↦ rw (e, r, refund_for_cancellation) (add db _ p)
        ]
        | inr (ref, e) ↦
            rw (e, refund_for_cancellation)
              (record_refund_cases faults id from (refund_row id amount reason by (some ref)) db add
                mark p)
      ]
