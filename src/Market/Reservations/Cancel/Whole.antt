-- ===== src/Market/Reservations/Cancel/Whole.antt =====
-- reservations.service.ts, `cancel`, as a whole: which cancellations ask the provider for a refund.
use kurtar.Prelude.{
  ℕ, ◌≡◌, ◌∙◌, ap, none, some, [], ok, err, ==_refl, Bool-cases, inl, inr, if◌then◌else◌,
}
use kurtar.Status.{same}
use kurtar.Status.Reservation.{machine, confirmed, cancelled_by_user}
use kurtar.Market.Rows.Laws.{find-key}
use kurtar.Market.State.{
  Db, Error, Payment, Reservation, RefundReason, ActorType, reservation_key, find_reservation, paid,
  not_cancellable,
}
use kurtar.Market.Refunds.{RefundCall, Faults, refund_for_cancellation}
use kurtar.Market.Refunds.Requests.{asked, refund_for_cancellation-asked}
use kurtar.Market.Reservations.Cancel.{cancel, cancel_read, refund_if}
use kurtar.Market.Reservations.Cancel.Outcomes.{cancel_tx-decides, cancelled_db, is_cancellable}

cancel_read-own :
    (id : ℕ) (r : Reservation) (p : Payment) (db : Db)
    → find_reservation id db ≡ some r
    → r.payment ≡ some p
    → cancel_read r.user_id id db ≡ ok (r, p)
unfolding cancel_read
cancel_read-own id r p db e n =
    rw (e, cancel_read)
      (rw (==_refl r.user_id)
        (ap (λ q. elim q [ none ↦ err Error.no_payment_row | some p ↦ ok (r, p) ]) n))

-- When a user cancels a reservation of theirs that is found with its payment: if it is pending or
-- confirmed and its deadline has not come, it is cancelled; the provider is then asked exactly once
-- for a refund of that payment's amount, and the refund's writes follow, if it was confirmed, and is
-- not called if it was pending. In every other case the call throws, changes nothing, and does not
-- call the provider.
pub cancel-decides :
    (call : RefundCall) (faults : Faults) (id now : ℕ) (r : Reservation) (p : Payment) (db : Db)
    → find_reservation id db ≡ some r
    → r.payment ≡ some p
    → cancel call faults r.user_id id now db ≡ (
        if is_cancellable now r
        then (if same machine r.status confirmed
            then (
              (ok cancelled_by_user, asked p),
              (refund_for_cancellation call faults id p.merchant_oid p.amount_cents
                  RefundReason.user_cancel ActorType.consumer paid
                  (cancelled_db r db)).1,
            )
            else ((ok cancelled_by_user, []), cancelled_db r db))
        else ((err not_cancellable, []), db))
unfolding cancel refund_if
cancel-decides call faults id now r p db e n =
    let read = cancel_read-own id r p db e n in
    let at_key : find_reservation r.id db ≡ some r =
      ap (λ i. find_reservation i db) (find-key reservation_key id db.reservations r e) ∙ e in
    let decided = cancel_tx-decides now r r db at_key in
    elim (Bool-cases (is_cancellable now r)) [
      | inr c ↦ rw (read, cancel) (rw (decided, c))
      | inl c ↦ elim (Bool-cases (same machine r.status confirmed)) [
        | inr s ↦ rw (read, cancel) (rw (decided, c, s))
        | inl s ↦
            let once =
              refund_for_cancellation-asked call faults id p RefundReason.user_cancel
                ActorType.consumer paid (cancelled_db r db) in
            rw (read, cancel) (rw (decided, c, s) (rw once))
      ]
    ]
