-- ===== src/Ledger/Membership/Conservation.antt =====
-- membership-offset.service.ts: the membership balance is a ledger too.
use kurtar.Prelude.{
  ℕ, ◌+◌, ◌≤◌, ◌≡◌, sym, ◌∙◌, ap, ◌||◌, inl, inr, leb, ltb, ◌==◌, arith, Bool-cases, ok, Result,
}
use kurtar.Settlement.Rate.{amount}
use kurtar.Settlement.Batch.{Params, Settlement, compute_settlement}
use kurtar.Settlement.Batch
use kurtar.Settlement.Batch.Accounting.{compute_settlement_iff, compute_settlement-chain}
use kurtar.Ledger.State.{SettlementBatch, MembershipSubscription, MerchantTerms}
use kurtar.Ledger.Membership.{due_of, split_membership_offset_vat, offset_subscription, before}

split_membership_offset_vat-le :
    (base vat applied : ℕ) → split_membership_offset_vat base vat applied ≤ vat
unfolding split_membership_offset_vat
split_membership_offset_vat-le base vat applied =
    elim (Bool-cases ((applied == 0) || (base == 0))) [
      | inl t ↦ rw t (omega arith)
      | inr t ↦ elim (Bool-cases (leb base applied)) [
        | inl s ↦ rw (t, s) (omega arith)
        | inr s ↦ rw (t, s) (omega arith)
      ]
    ]

offset_of :
    (p : Params) (r : Settlement)
    → compute_settlement p ≡ ok r
    → r.membership_offset_cents ≤ amount p.membership_due_cents
offset_of p r e =
    let (r2, e2, chain) = compute_settlement-chain p ((compute_settlement_iff p).0 (r, e)) in
    let results : ◌≡◌ {A = Result Batch.Error Settlement} (ok r2) (ok r) = sym e2 ∙ e in
    let same : r2 ≡ r = cc in
    let offsets = ap (λ x. x.membership_offset_cents) same in omega (arith, chain.0, offsets)

due_of-le :
    (merchant : MerchantTerms) (batch : SettlementBatch) (sub : MembershipSubscription)
    → let due = due_of merchant batch sub in
      (due.due_cents ≤ sub.outstanding_cents + batch.membership_offset_cents)
      × (due.due_vat_cents ≤ sub.outstanding_vat_cents + batch.membership_offset_vat_cents)
unfolding due_of
due_of-le merchant batch sub =
    elim (Bool-cases (
      before batch.period_start merchant.membership_exempt_until
      || (ltb batch.period_start sub.current_period_start
          || leb sub.current_period_end batch.period_start))) [
            | inl t ↦ rw t (omega arith, omega arith)
            | inr t ↦ rw t (omega arith, omega arith)
          ]

-- If a settlement is computed with the due that `lockAndResolveDue` read of a subscription, then
-- the row that `persistOffset` writes and the batch's new offset together hold what the
-- subscription and the batch's old offset held, the VAT portion likewise, on the exempt and
-- foreign-period paths as on the others: nothing is forgiven and nothing collected twice.
pub offset_subscription-conserves :
    (merchant : MerchantTerms) (batch : SettlementBatch) (sub : MembershipSubscription) (now : ℕ)
    (p : Params) (r : Settlement)
    → amount p.membership_due_cents ≡ (due_of merchant batch sub).due_cents
    → compute_settlement p ≡ ok r
    → let due = due_of merchant batch sub in
      let vat =
        split_membership_offset_vat due.due_cents due.due_vat_cents r.membership_offset_cents in
      let written = offset_subscription now due r.membership_offset_cents sub in
      (written.outstanding_cents + r.membership_offset_cents
        ≡ sub.outstanding_cents + batch.membership_offset_cents)
      × (written.outstanding_vat_cents + vat
          ≡ sub.outstanding_vat_cents + batch.membership_offset_vat_cents)
unfolding offset_subscription due_of
offset_subscription-conserves merchant batch sub now p r e computed =
    let due = due_of merchant batch sub in
    let bound = due_of-le merchant batch sub in
    let offset = offset_of p r computed in
    let vat =
      split_membership_offset_vat-le due.due_cents due.due_vat_cents r.membership_offset_cents in
    let vat_bound = bound.1 in (omega (arith, e, bound.0, offset), omega (arith, vat, vat_bound))
