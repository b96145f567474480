-- ===== src/Market/Coherence.antt =====
-- Reservations against payments: which payment status goes with which reservation status, and how
-- the writes of a transaction keep that for the row that they name.
pub mod Refunds
pub mod Settle
pub mod Fanout
pub mod Steps
use kurtar.Prelude.{
  ℕ, ◌*◌, ◌≡◌, refl, ◌∙◌, ap, Bool, true, false, Option, none, some, List, [], ◌∷◌, ◌==◌,
  if◌then◌else◌, All, arith, Bool-cases, Option-cases, inl, inr,
}
use kurtar.Status.Reservation.{
  ReservationStatus, machine, pending_payment, confirmed, redeemed, cancelled_by_user,
  cancelled_by_merchant, no_show, expired,
}
use kurtar.Market.Rows.{find, write, matched}
use kurtar.Market.Rows.Laws.{updated, find-All, find-write, matched-found}
use kurtar.Market.State.{
  Db, Reservation, Payment, PaymentStatus, reservation_key, write_reservation, reservation_matched,
  includes_payment, intent, processing, paid, failed, refund_pending, refunded, live_statuses,
  payment_in,
}

-- A live intent belongs to a pending reservation, money held to a confirmed one, and a refund only
-- to one that has ended.
abbrev pub agrees : ReservationStatus → PaymentStatus → Bool
agrees pending_payment p = includes_payment live_statuses p
agrees confirmed p = includes_payment (paid ∷ []) p
agrees expired p = includes_payment (failed ∷ []) p
agrees cancelled_by_user p = includes_payment (failed ∷ paid ∷ refund_pending ∷ refunded ∷ []) p
agrees _ p = includes_payment (paid ∷ refund_pending ∷ refunded ∷ []) p

abbrev pub is_stamped : ReservationStatus → Option ℕ → Bool
is_stamped redeemed none = false
is_stamped redeemed (some at) = true
is_stamped _ none = true
is_stamped _ (some at) = false

-- A reservation has a payment at a matching status, for its own total, which is the unit price times
-- the quantity; and it carries a time of redemption exactly when it is redeemed.
abbrev pub IsPaidBy : Reservation → Option Payment → Type 0
IsPaidBy r none = ⊥
IsPaidBy r (some p) = (agrees r.status p.status ≡ true) × (p.amount_cents ≡ r.total_cents)

pub record IsCoherent (r : Reservation) : Type 0 where
  pub payment : IsPaidBy r r.payment
  pub priced : r.total_cents ≡ r.unit_price_cents * r.qty
  pub stamped : is_stamped r.status r.redeemed_at ≡ true

abbrev pub AllCoherent : Db → Type 0
AllCoherent db = All IsCoherent db.reservations

module _ {A : Type 0} (key : A → ℕ) (P : A → Type 0) (k : ℕ) where
  -- One write, by what it makes of the row that it finds.
  pub All-replace :
      (g : A → Bool) (f : A → A) (xs : List A)
      → All P xs
      → ((x : A) → find key k xs ≡ some x → P x → P (updated g f x))
      → All P (write key k g f xs)
  unfolding find write
  All-replace g f [] a step = tt
  All-replace g f (x ∷ xs) a step = elim (Bool-cases (key x == k)) [
    | inl h ↦ rw h (step x (rw h) a.0, a.1)
    | inr h ↦ rw h (a.0, All-replace g f xs a.1 (λ y e. step y (rw h e)))
  ]

  -- Two writes of one transaction, by what they make of the row together.
  pub All-replace₂ :
      (g₁ g₂ : A → Bool) (f₁ f₂ : A → A) (xs : List A)
      → ((x : A) → key (f₁ x) ≡ key x)
      → All P xs
      → ((x : A) → find key k xs ≡ some x → P x → P (updated g₂ f₂ (updated g₁ f₁ x)))
      → All P (write key k g₂ f₂ (write key k g₁ f₁ xs))
  unfolding find write
  All-replace₂ g₁ g₂ f₁ f₂ [] keep a step = tt
  All-replace₂ g₁ g₂ f₁ f₂ (x ∷ xs) keep a step = elim (Bool-cases (key x == k)) [
    | inl h ↦
        let h' : (key (updated g₁ f₁ x) == k) ≡ true = ground (arith, keep x) in
        rw (h, h') (step x (rw h) a.0, a.1)
    | inr h ↦ rw (h, h) (a.0, All-replace₂ g₁ g₂ f₁ f₂ xs keep a.1 (λ y e. step y (rw h e)))
  ]
