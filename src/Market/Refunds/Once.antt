-- ===== src/Market/Refunds/Once.antt =====
-- reservations.service.ts, `refundRedeemed`: a refund that went through is never made again.
use kurtar.Prelude.{
  ℕ, ◌≡◌, refl, sym, ap, ◌∙◌, List, Bool, true, false, ◌||◌, ◌&&◌, some, [], ◌∷◌, Result, ok, err,
  err-ok, arith, Bool-cases, Option-cases, inl, inr, if◌then◌else◌, ◌⊎◌,
}
use kurtar.Status.{same}
use kurtar.Status.Reservation.{ReservationStatus, machine, redeemed, no_show}
use kurtar.Market.Rows.Laws.{updated, found-matched}
use kurtar.Market.Rows.Compose.{find-write_same}
use kurtar.Market.State.{
  Db, Error, Payment, PaymentStatus, Reservation, RefundReason, ActorType, reservation_key,
  find_reservation, write_reservation, reservation_matched, payment_in, set_payment_status, paid,
  refund_pending, refunded, not_refundable,
}
use kurtar.Market.Refunds.{
  RefundRequest, RefundCall, Faults, RefundOutcome, succeeded, refused, refund_redeemed,
  refund_payment, refund_claimed, refund_for_cancellation, claim_payment, mark_refunded,
}
use kurtar.Market.Refunds.Cases.{refund_cases}
use kurtar.Market.Refunds.Requests.{asked, refund_for_cancellation-asked}

abbrev pub is_over : ReservationStatus → Bool
is_over s = same machine s redeemed || same machine s no_show

-- The payment is being refunded, or is refunded.
abbrev refunding : Reservation → Bool
refunding r = is_over r.status && payment_in (refund_pending ∷ refunded ∷ []) r

abbrev IsRefunding : ℕ → Db → Type 0
IsRefunding id db = (r : Reservation) × (find_reservation id db ≡ some r) × (refunding r ≡ true)

and-false : (b : Bool) → (b && false) ≡ true → ⊥
and-false true e = cc
and-false false e = cc

refunding-refused :
    (call : RefundCall) (faults : Faults) (id : ℕ) (db : Db)
    → IsRefunding id db
    → refund_redeemed call faults id db ≡ ((err not_refundable, []), db)
unfolding refund_redeemed refund_payment
refunding-refused call faults id db (r, e, t) = elim (Option-cases r.payment) [
  | inl n ↦ absurd (and-false (is_over r.status) (rw n at t))
  | inr (p, n) ↦
      let over : is_over r.status ≡ true = ground arith in
      let m : reservation_matched id (payment_in (paid ∷ [])) db ≡ false =
        found-matched reservation_key id (payment_in (paid ∷ [])) db.reservations r e
        ∙ ground arith in
      rw (e, refund_redeemed) (rw (n, refund_payment) (rw (over, m)))
]

write-refunding :
    (id : ℕ) (g : Reservation → Bool) (to : PaymentStatus) (r : Reservation) (db : Db)
    → find_reservation id db ≡ some r
    → refunding (updated g (set_payment_status to) r) ≡ true
    → IsRefunding id (write_reservation id g (set_payment_status to) db)
write-refunding id g to r db e t = (
  updated g (set_payment_status to) r,
  find-write_same reservation_key id g (set_payment_status to) db.reservations r (λ _. refl) e,
  t,
)

mark_refunded-IsRefunding :
    (id : ℕ) (from : PaymentStatus) (db : Db)
    → IsRefunding id db
    → IsRefunding id (mark_refunded id from db)
mark_refunded-IsRefunding id from db (r, e, t) =
    write-refunding id (payment_in (from ∷ [])) refunded r db e (ground arith)

refund-IsRefunding :
    (call : RefundCall) (faults : Faults) (id oid amount : ℕ) (reason : RefundReason)
    (by : ActorType) (from : PaymentStatus) (db : Db)
    → IsRefunding id db
    → IsRefunding id (refund_for_cancellation call faults id oid amount reason by from db).1
refund-IsRefunding call faults id oid amount reason by from db =
    refund_cases (IsRefunding id) call faults id oid amount reason by from db (λ db' refunds q. q)
      (λ db'. mark_refunded-IsRefunding id from db')

pub outcome-cases :
    (outcome : RefundOutcome)
    → ((ref : ℕ) × (outcome ≡ succeeded ref)) ⊎ ((message : ℕ) × (outcome ≡ refused message))
outcome-cases (succeeded ref) = inl (ref, refl)
outcome-cases (refused message) = inr (message, refl)

claim-IsRefunding :
    (id : ℕ) (r : Reservation) (db : Db)
    → find_reservation id db ≡ some r
    → is_over r.status ≡ true
    → reservation_matched id (payment_in (paid ∷ [])) db ≡ true
    → IsRefunding id (claim_payment id db)
claim-IsRefunding id r db e over m =
    let t =
      sym (found-matched reservation_key id (payment_in (paid ∷ [])) db.reservations r e) ∙ m in
    write-refunding id (payment_in (paid ∷ [])) refund_pending r db e (ground arith)

module _ (call : RefundCall) (faults : Faults) (id : ℕ) (p : Payment) (db : Db) where
  abbrev pub complaint_refund : (RefundOutcome × List RefundRequest) × Db
  complaint_refund =
      refund_for_cancellation call faults id p.merchant_oid p.amount_cents RefundReason.complaint
        ActorType.admin refund_pending db

  pub refund_claimed-asked : (refund_claimed call faults id p db).0.1 ≡ asked p
  unfolding refund_claimed
  refund_claimed-asked =
      let one_call =
        refund_for_cancellation-asked call faults id p RefundReason.complaint ActorType.admin
          refund_pending db in
      elim (outcome-cases complaint_refund.0.0) [
        | inl (x, e) ↦ rw (e, refund_claimed) one_call
        | inr (x, e) ↦ rw (e, refund_claimed) one_call
      ]

  refund_claimed-succeeded :
      (ref : ℕ)
      → (refund_claimed call faults id p db).0.0 ≡ succeeded ref
      → (refund_claimed call faults id p db).1 ≡ complaint_refund.1
  unfolding refund_claimed
  refund_claimed-succeeded ref h = elim (outcome-cases complaint_refund.0.0) [
    | inl (x, e) ↦ rw (e, refund_claimed)
    | inr (x, e) ↦
        let bad : refused x ≡ succeeded ref = rw (e, refund_claimed) at h in absurd (outcomes bad)
  ]
    where
      outcomes : {x y : ℕ} → refused x ≡ succeeded y → ⊥
      outcomes q = cc

pub ok-injective :
    (x y : RefundOutcome) → ◌≡◌ {A = Result Error RefundOutcome} (ok x) (ok y) → x ≡ y
ok-injective x y q = cc

and-left : (a b : Bool) → (a && b) ≡ true → a ≡ true
and-left a b q = ground arith

pub and-right : (a b : Bool) → (a && b) ≡ true → b ≡ true
and-right a b q = ground arith

refund_payment-decides :
    (call : RefundCall) (faults : Faults) (id : ℕ) (p : Payment) (status : ReservationStatus)
    (is_paid : Bool) (db : Db)
    → reservation_matched id (payment_in (paid ∷ [])) db ≡ is_paid
    → refund_payment call faults id (some p) status db ≡ (
        if is_over status && is_paid
        then (let result = refund_claimed call faults id p (claim_payment id db) in
            ((ok result.0.0, result.0.1), result.1))
        else ((err not_refundable, []), db))
unfolding refund_payment
refund_payment-decides call faults id p status is_paid db m = elim (Bool-cases (is_over status)) [
  | inr a ↦ rw a
  | inl a ↦ elim (Bool-cases is_paid) [ inl b ↦ rw (a, m, b) | inr b ↦ rw (a, m, b) ]
]

-- What a call of `refundRedeemed` does for a reservation that is found with its payment.
pub refund_redeemed-row :
    (call : RefundCall) (faults : Faults) (id : ℕ) (r : Reservation) (p : Payment) (db : Db)
    → find_reservation id db ≡ some r
    → r.payment ≡ some p
    → refund_redeemed call faults id db ≡ (
        if is_over r.status && payment_in (paid ∷ []) r
        then (let result = refund_claimed call faults id p (claim_payment id db) in
            ((ok result.0.0, result.0.1), result.1))
        else ((err not_refundable, []), db))
unfolding refund_redeemed
refund_redeemed-row call faults id r p db e n =
    let m = found-matched reservation_key id (payment_in (paid ∷ [])) db.reservations r e in
    rw (e, refund_redeemed)
      (ap (λ q. refund_payment call faults id q r.status db) n
        ∙ refund_payment-decides call faults id p r.status (payment_in (paid ∷ []) r) db m)

-- When `refundRedeemed` reports a success for a reservation that is found with its payment, the
-- provider has been called exactly once, for that payment and its amount; and a second call of
-- `refundRedeemed` for the same reservation throws that it is not refundable, changes nothing and
-- makes no call of the provider: whatever bookkeeping failed in the first call, and whatever the
-- provider would answer.
pub refund_redeemed-once :
    (call call' : RefundCall) (faults faults' : Faults) (id ref : ℕ) (r : Reservation) (p : Payment)
    (requests : List RefundRequest) (db db' : Db)
    → find_reservation id db ≡ some r
    → r.payment ≡ some p
    → refund_redeemed call faults id db ≡ ((ok (succeeded ref), requests), db')
    → (requests ≡ asked p)
      × (refund_redeemed call' faults' id db' ≡ ((err not_refundable, []), db'))
refund_redeemed-once call call' faults faults' id ref r p requests db db' e n h =
    let row = refund_redeemed-row call faults id r p db e n in
    let db1 = claim_payment id db in
    elim (Bool-cases (is_over r.status && payment_in (paid ∷ []) r)) [
      | inr a ↦
          let bad : ◌≡◌ {A = (Result Error RefundOutcome × List RefundRequest) × Db}
              ((err not_refundable, []), db) ((ok (succeeded ref), requests), db') =
            sym (row ∙ rw a) ∙ h in
          absurd (err-ok not_refundable (succeeded ref) (ap (λ z. z.0.0) bad))
      | inl a ↦
          let result = refund_claimed call faults id p db1 in
          let done : ◌≡◌ {A = (Result Error RefundOutcome × List RefundRequest) × Db}
              ((ok result.0.0, result.0.1), result.1) ((ok (succeeded ref), requests), db') =
            sym (row ∙ rw a) ∙ h in
          let same_calls : result.0.1 ≡ requests = ap (λ z. z.0.1) done in
          let same_db : result.1 ≡ db' = ap (λ z. z.1) done in
          let outcome : result.0.0 ≡ succeeded ref =
            ok-injective result.0.0 (succeeded ref) (ap (λ z. z.0.0) done) in
          let claimed = claim-IsRefunding id r db e (and-left _ _ a) (
            found-matched reservation_key id (payment_in (paid ∷ [])) db.reservations r e
            ∙ and-right _ _ a) in
          let after : db' ≡ (complaint_refund call faults id p db1).1 =
            sym same_db ∙ refund_claimed-succeeded call faults id p db1 ref outcome in
          (
            sym same_calls ∙ refund_claimed-asked call faults id p db1,
            refunding-refused call' faults' id db' (
                rw after (
                  refund-IsRefunding call faults id p.merchant_oid p.amount_cents
                    RefundReason.complaint ActorType.admin refund_pending db1 claimed)),
          )
    ]
