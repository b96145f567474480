-- ===== src/Market/Coherence/Refunds.antt =====
-- The sweeper, the note of an intent and the refunds keep reservations and payments coherent.
use kurtar.Prelude.{
  ℕ, ◌≡◌, refl, Bool, true, some, List, [], ◌∷◌, ◌==◌, arith, Bool-cases, Option-cases, inl, inr,
}
use kurtar.Status.{includes}
use kurtar.Status.Reservation.{
  ReservationStatus, machine, redeemed, cancelled_by_user, cancelled_by_merchant, no_show,
}
use kurtar.Market.State.{
  Db, Reservation, reservation_key, write_reservation, payment_in, includes_payment,
  set_payment_status, set_status, map_payment, paid, find_reservation, Payment,
}
use kurtar.Market.Fanout.{status_in}
use kurtar.Market.Sweeper.{mark_no_show}
use kurtar.Market.State.{PaymentStatus, RefundReason, ActorType, refund_pending, refunded}
use kurtar.Market.Refunds.{RefundCall, Faults, refund_for_cancellation}
use kurtar.Market.Refunds.Cases.{refund_cases}
use kurtar.Market.Sweeper.{no_show_from}
use kurtar.Prelude.{◌∙◌}
use kurtar.Market.Rows.Laws.{updated, find-write}
use kurtar.Market.Coherence.{IsCoherent, AllCoherent, IsPaidBy, agrees, All-replace}

no_show_row :
    (x : Reservation)
    → IsCoherent x
    → status_in no_show_from x ≡ true
    → IsCoherent (set_status no_show x)
no_show_row x c t = ground arith

-- One guarded write, by what it makes of a row that its guard admits.
one_write-AllCoherent :
    (db : Db) (id : ℕ) (g : Reservation → Bool) (f : Reservation → Reservation)
    → ((x : Reservation)
        → find_reservation id db ≡ some x
        → IsCoherent x
        → g x ≡ true
        → IsCoherent (f x))
    → AllCoherent db
    → AllCoherent (write_reservation id g f db)
one_write-AllCoherent db id g f step a =
    All-replace reservation_key IsCoherent id g f db.reservations a
      λ x e v. elim (Bool-cases (g x)) [ inl t ↦ rw t (step x e v t) | inr t ↦ rw t v ]

intent_row :
    (ref : ℕ) (x : Reservation)
    → IsCoherent x
    → IsCoherent (map_payment (λ p. record p { psp_payment_id = some ref }) x)
intent_row ref x v = elim (Option-cases x.payment) [
  | inl n ↦ absurd (rw n at v.payment)
  | inr (p, n) ↦
      let paid_by : IsPaidBy x (some p) = rw n at v.payment in
      record { payment = rw n paid_by; priced = v.priced; stamped = v.stamped }
]

pub records_intent-AllCoherent :
    (db : Db) (id ref : ℕ)
    → AllCoherent db
    → AllCoherent (
        write_reservation id
          (λ _. true)
          (map_payment (λ p. record p { psp_payment_id = some ref }))
          db)
records_intent-AllCoherent db id ref =
    one_write-AllCoherent db id (λ _. true) _ (λ x _ v _. intent_row ref x v)

pub mark_no_show-AllCoherent :
    (id : ℕ) (db : Db) → AllCoherent db → AllCoherent (mark_no_show id db).1
unfolding mark_no_show
mark_no_show-AllCoherent id db =
    one_write-AllCoherent db id (status_in no_show_from) (set_status no_show) (λ x _. no_show_row x)

-- The reservation has ended in a way that may be refunded.
abbrev pub refundable_statuses : List ReservationStatus
refundable_statuses = redeemed ∷ no_show ∷ cancelled_by_user ∷ cancelled_by_merchant ∷ []

abbrev pub IsRefundable : Db → ℕ → Type 0
IsRefundable db id =
    (r : Reservation) × (find_reservation id db ≡ some r)
    × (includes machine refundable_statuses r.status ≡ true)

-- A payment that moves between PAID, REFUND_PENDING and REFUNDED.
abbrev refund_statuses : List PaymentStatus
refund_statuses = paid ∷ refund_pending ∷ refunded ∷ []

refund-agrees :
    (s : ReservationStatus) (to : PaymentStatus)
    → includes_payment refund_statuses to ≡ true
    → includes machine refundable_statuses s ≡ true
    → agrees s to ≡ true
refund-agrees s to ht h = ground arith

refund_row_coherent :
    (to : PaymentStatus) (x : Reservation)
    → includes_payment refund_statuses to ≡ true
    → includes machine refundable_statuses x.status ≡ true
    → IsCoherent x
    → IsCoherent (set_payment_status to x)
refund_row_coherent to x ht h v = elim (Option-cases x.payment) [
  | inl n ↦ absurd (rw n at v.payment)
  | inr (p, n) ↦
      let paid_by : IsPaidBy x (some p) = rw n at v.payment in
      record {
        payment = rw n (refund-agrees x.status to ht h, paid_by.1);
        priced = v.priced;
        stamped = v.stamped;
      }
]

pub refund_write-AllCoherent :
    (db : Db) (id : ℕ) (from to : PaymentStatus)
    → includes_payment refund_statuses to ≡ true
    → IsRefundable db id
    → AllCoherent db
    → AllCoherent (write_reservation id (payment_in (from ∷ [])) (set_payment_status to) db)
refund_write-AllCoherent db id from to ht (r, e, h) =
    one_write-AllCoherent db id (payment_in (from ∷ [])) (set_payment_status to) λ x e' v t.
      let same_row : x ≡ r = ground arith in refund_row_coherent to x ht (rw same_row h) v

refund_write-IsRefundable :
    (db : Db) (id k : ℕ) (g : Reservation → Bool) (f : Payment → Payment)
    → IsRefundable db id
    → IsRefundable (write_reservation k g (map_payment f) db) id
refund_write-IsRefundable db id k g f (r, e, h) =
    let after = find-write reservation_key id k g (map_payment f) db.reservations (λ _. refl) in
    elim (Bool-cases (k == id)) [
      | inl t ↦ (updated g (map_payment f) r, after ∙ rw (t, e), ground arith)
      | inr t ↦ (r, after ∙ rw (t, e), h)
    ]

pub refund_for_cancellation-AllCoherent :
    (call : RefundCall) (faults : Faults) (id oid amount : ℕ) (reason : RefundReason)
    (by : ActorType) (from : PaymentStatus) (db : Db)
    → IsRefundable db id
    → AllCoherent db
    → AllCoherent (refund_for_cancellation call faults id oid amount reason by from db).1
refund_for_cancellation-AllCoherent call faults id oid amount reason by from db h a =
    (refund_cases (λ x. IsRefundable x id × AllCoherent x) call faults id oid amount reason by from
      db (λ db' refunds p. p)
      (λ db' p. (
        refund_write-IsRefundable db' id id (payment_in (from ∷ [])) _ p.0,
        refund_write-AllCoherent db' id from refunded refl p.0 p.1,
      ))
      (h, a)).1
