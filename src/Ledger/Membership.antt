-- ===== src/Ledger/Membership.antt =====
-- backend/src/modules/memberships/membership-offset.service.ts: what a batch may take of a
-- merchant's membership fee, and how it is written back.
pub mod Conservation
use kurtar.Prelude.{
  ℕ, ◌+◌, ◌-◌, ◌*◌, Bool, true, false, ◌&&◌, ◌||◌, not, Option, none, some, List, [], ◌∷◌, ltb, leb,
  min, ◌==◌, if◌then◌else◌,
}
use kurtar.Market.Rows.{find, write}
use kurtar.Settlement.Rate.{round_kurus}
use kurtar.Ledger.State.{
  SettlementBatch, MembershipStatus, MembershipSubscription, MerchantTerms, merchant_id_of, is_none,
  trial, active, past_due, cancelled,
}

-- `MembershipDueForRecompute`, with the subscription that it was read from.
pub record Due : Type 0 where
  pub subscription : MembershipSubscription
  pub due_cents : ℕ
  pub due_vat_cents : ℕ
  pub exempt : Bool
  pub foreign_period : Bool
  pub batch_prior_offset_cents : ℕ
  pub batch_prior_offset_vat_cents : ℕ

abbrev pub before : ℕ → Option ℕ → Bool
before date none = false
before date (some until) = ltb date until

abbrev pub needs_activation : MembershipStatus → Bool
needs_activation trial = true
needs_activation past_due = true
needs_activation active = false
needs_activation cancelled = false

unfoldable pub due_of : MerchantTerms → SettlementBatch → MembershipSubscription → Due
due_of merchant batch sub =
    let exempt = before batch.period_start merchant.membership_exempt_until in
    let foreign_period =
      ltb batch.period_start sub.current_period_start
      || leb sub.current_period_end batch.period_start in
    let restore_only = exempt || foreign_period in
    record {
      subscription = sub;
      due_cents =
          if restore_only
          then batch.membership_offset_cents
          else sub.outstanding_cents + batch.membership_offset_cents;
      due_vat_cents =
          if restore_only
          then batch.membership_offset_vat_cents
          else sub.outstanding_vat_cents + batch.membership_offset_vat_cents;
      exempt = exempt;
      foreign_period = foreign_period;
      batch_prior_offset_cents = batch.membership_offset_cents;
      batch_prior_offset_vat_cents = batch.membership_offset_vat_cents;
    }

-- `lockAndResolveDue`.
unfoldable pub resolve_due :
    MerchantTerms → SettlementBatch → List MembershipSubscription → Option Due
unfolding find
resolve_due merchant batch subscriptions =
    elim (find merchant_id_of batch.merchant_id subscriptions) [
      | none ↦ none
      | some sub ↦ some (due_of merchant batch sub)
    ]

abbrev pub due_cents? : Option Due → ℕ
due_cents? none = 0
due_cents? (some due) = due.due_cents

unfoldable pub split_membership_offset_vat : ℕ → ℕ → ℕ → ℕ
split_membership_offset_vat due_cents_base due_vat_cents_base applied_offset_cents =
    if (applied_offset_cents == 0) || (due_cents_base == 0)
    then 0
    else (if leb due_cents_base applied_offset_cents
        then due_vat_cents_base
        else (let proportional =
              round_kurus (applied_offset_cents * due_vat_cents_base) due_cents_base in
            min (min proportional due_vat_cents_base) applied_offset_cents))

-- The row that `persistOffset` writes. `Math.max(0, x)` is the subtraction that stops at 0.
unfoldable pub offset_subscription : ℕ → Due → ℕ → MembershipSubscription → MembershipSubscription
unfolding split_membership_offset_vat
offset_subscription now due applied sub =
    let vat = split_membership_offset_vat due.due_cents due.due_vat_cents applied in
    let outstanding = due.subscription.outstanding_cents + due.batch_prior_offset_cents - applied in
    let collects = not due.exempt && not due.foreign_period in
    record sub {
      outstanding_cents = outstanding;
      outstanding_vat_cents =
          due.subscription.outstanding_vat_cents + due.batch_prior_offset_vat_cents - vat;
      period_paid_at =
          if collects && (outstanding == 0) && is_none due.subscription.period_paid_at
          then some now
          else sub.period_paid_at;
      status = if collects && needs_activation due.subscription.status then active else sub.status;
    }

-- `persistOffset`: the VAT portion, and the table.
unfoldable pub persist_offset :
    ℕ → Option Due → ℕ → List MembershipSubscription → ℕ × List MembershipSubscription
unfolding split_membership_offset_vat write offset_subscription
persist_offset now none applied subscriptions = (0, subscriptions)
persist_offset now (some due) applied subscriptions = (
  split_membership_offset_vat due.due_cents due.due_vat_cents applied,
  write merchant_id_of due.subscription.merchant_id (λ s. true)
      (offset_subscription now due applied) subscriptions,
)
