-- ===== src/Market/Refunds/Retries.antt =====
-- reservations.service.ts, `refundRedeemed`: a refund that was refused can be asked for again.
use kurtar.Prelude.{
  ℕ, ◌≡◌, refl, sym, ap, ◌∙◌, List, Result-cases, true, false, ◌&&◌, none, some, [], ◌∷◌, Result,
  ok, err, err-ok, arith, Bool-cases, Option-cases, inl, inr,
}
use mathlib.Core.Path.{subst}
use kurtar.Market.Rows.{find, write}
use kurtar.Market.Rows.Laws.{updated}
use kurtar.Market.Rows.Compose.{find-write_same}
use kurtar.Market.State.{
  Db, Error, Payment, Reservation, reservation_key, find_reservation, payment_in,
  set_payment_status, paid, refund_pending, not_refundable,
}
use kurtar.Market.Refunds.{
  RefundRequest, RefundCall, Faults, RefundOutcome, succeeded, refused, refund_redeemed,
  refund_claimed, refund_for_cancellation, claim_payment, unclaim_payment,
}
use kurtar.Market.Refunds.Requests.{asked}
use kurtar.Market.Refunds.Once.{
  is_over, ok-injective, and-right, outcome-cases, complaint_refund, refund_claimed-asked,
  refund_redeemed-row,
}

unclaimed_row :
    (r : Reservation)
    → payment_in (paid ∷ []) r ≡ true
    → updated
        (payment_in (refund_pending ∷ []))
        (set_payment_status paid)
        (updated (payment_in (paid ∷ [])) (set_payment_status refund_pending) r)
      ≡ r
unclaimed_row r t = elim (Option-cases r.payment) [
  | inl n ↦ absurd (no_payment r n t)
  | inr (p, n) ↦ paid_back r p n (paid_status r p n t)
]
  where
    no_payment : (x : Reservation) → x.payment ≡ none → payment_in (paid ∷ []) x ≡ true → ⊥
    no_payment x n h = ground arith

    paid_status :
        (x : Reservation) (q : Payment)
        → x.payment ≡ some q
        → payment_in (paid ∷ []) x ≡ true
        → q.status ≡ paid
    paid_status x q n h = ground arith

    paid_back :
        (x : Reservation) (q : Payment)
        → x.payment ≡ some q
        → q.status ≡ paid
        → updated
            (payment_in (refund_pending ∷ []))
            (set_payment_status paid)
            (updated (payment_in (paid ∷ [])) (set_payment_status refund_pending) x)
          ≡ x
    paid_back x q n h =
        let restored : ◌≡◌ {A = Reservation}
            (record x { payment = some (record q { status = paid }) }) x =
          ap (λ s. record x { payment = some (record q { status = s }) }) (sym h)
          ∙ ap (λ o. record x { payment = o }) (sym n) in
        subst
          (λ z.
            updated (payment_in (refund_pending ∷ [])) (set_payment_status paid)
              (updated (payment_in (paid ∷ [])) (set_payment_status refund_pending) z)
            ≡ z)
          restored refl

not_both : {x y : ℕ} → succeeded x ≡ refused y → ⊥
not_both q = cc

-- A refused refund adds a row to the refunds, at most.
refusal-reservations :
    (call : RefundCall) (faults : Faults) (id : ℕ) (p : Payment) (db : Db) (message : ℕ)
    → (complaint_refund call faults id p db).0.0 ≡ refused message
    → (complaint_refund call faults id p db).1.reservations ≡ db.reservations
unfolding refund_for_cancellation
refusal-reservations call faults id p db message h =
    elim (Result-cases (call p.merchant_oid p.amount_cents)) [
      | inr (ref, e) ↦ absurd (not_both (rw (e, refund_for_cancellation) at h))
      | inl (x, e) ↦ elim (Bool-cases faults.failed_row) [
        | inl g ↦ rw (e, refund_for_cancellation) (rw g)
        | inr g ↦ rw (e, refund_for_cancellation) (rw g)
      ]
    ]

refund_claimed-refused :
    (call : RefundCall) (faults : Faults) (id : ℕ) (p : Payment) (db : Db) (message : ℕ)
    → faults.unclaim ≡ false
    → (refund_claimed call faults id p db).0.0 ≡ refused message
    → (refund_claimed call faults id p db).1.reservations ≡ (unclaim_payment id db).reservations
unfolding refund_claimed refund_for_cancellation
refund_claimed-refused call faults id p db message f h =
    elim (outcome-cases (complaint_refund call faults id p db).0.0) [
      | inl (ref, e) ↦ absurd (not_both (rw (e, refund_claimed) at h))
      | inr (x, e) ↦
          let kept = refusal-reservations call faults id p db x e in
          rw (e, f, refund_claimed)
            (ap
              (write reservation_key id (payment_in (refund_pending ∷ []))
                (set_payment_status paid))
              kept)
    ]

claimed-unclaimed :
    (id : ℕ) (r : Reservation) (db : Db)
    → find_reservation id db ≡ some r
    → payment_in (paid ∷ []) r ≡ true
    → find reservation_key id (unclaim_payment id (claim_payment id db)).reservations ≡ some r
claimed-unclaimed id r db e t =
    let g = payment_in (paid ∷ []) in
    let found =
      find-write_same reservation_key id g (set_payment_status refund_pending) db.reservations r
        (λ _. refl) e in
    find-write_same reservation_key id (payment_in (refund_pending ∷ [])) (set_payment_status paid)
      (claim_payment id db).reservations (updated g (set_payment_status refund_pending) r)
      (λ _. refl) found
    ∙ ap some (unclaimed_row r t)

-- When the provider refuses the refund and the release of the claim does not fail, the reservation
-- and its payment are as they were, so that the next call asks the provider again; this call asked
-- it exactly once.
pub refund_redeemed-retries :
    (call : RefundCall) (faults : Faults) (id message : ℕ) (r : Reservation) (p : Payment)
    (requests : List RefundRequest) (db db' : Db)
    → find_reservation id db ≡ some r
    → r.payment ≡ some p
    → faults.unclaim ≡ false
    → refund_redeemed call faults id db ≡ ((ok (refused message), requests), db')
    → (requests ≡ asked p)
      × (find_reservation id db' ≡ some r)
      × ((refund_redeemed call faults id db').0.1 ≡ asked p)
refund_redeemed-retries call faults id message r p requests db db' e n f h =
    let row = refund_redeemed-row call faults id r p db e n in
    let db1 = claim_payment id db in
    elim (Bool-cases (is_over r.status && payment_in (paid ∷ []) r)) [
      | inr a ↦
          let bad : ◌≡◌ {A = (Result Error RefundOutcome × List RefundRequest) × Db}
              ((err not_refundable, []), db) ((ok (refused message), requests), db') =
            sym (row ∙ rw a) ∙ h in
          absurd (err-ok not_refundable (refused message) (ap (λ z. z.0.0) bad))
      | inl a ↦
          let result = refund_claimed call faults id p db1 in
          let done : ◌≡◌ {A = (Result Error RefundOutcome × List RefundRequest) × Db}
              ((ok result.0.0, result.0.1), result.1) ((ok (refused message), requests), db') =
            sym (row ∙ rw a) ∙ h in
          let same_calls : result.0.1 ≡ requests = ap (λ z. z.0.1) done in
          let same_db : result.1 ≡ db' = ap (λ z. z.1) done in
          let outcome : result.0.0 ≡ refused message =
            ok-injective result.0.0 (refused message) (ap (λ z. z.0.0) done) in
          let back : find_reservation id db' ≡ some r =
            ap (find_reservation id) (sym same_db)
            ∙ ap (find reservation_key id)
                (refund_claimed-refused call faults id p db1 message f outcome)
            ∙ claimed-unclaimed id r db e (and-right _ _ a) in
          let again = refund_claimed call faults id p (claim_payment id db') in
          let asks : ◌≡◌ {A = (Result Error RefundOutcome × List RefundRequest) × Db}
              (refund_redeemed call faults id db') ((ok again.0.0, again.0.1), again.1) =
            refund_redeemed-row call faults id r p db' back n ∙ rw a in
          (
            sym same_calls ∙ refund_claimed-asked call faults id p db1,
            back,
            ap (λ z. z.0.1) asks ∙ refund_claimed-asked call faults id p (claim_payment id db'),
          )
    ]
