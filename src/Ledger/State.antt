-- ===== src/Ledger/State.antt =====
-- backend/prisma/schema.prisma: the rows that the settlement services read and write. Instants are
-- milliseconds, and a table has its newest row first.
use kurtar.Prelude.{
  ℕ, ◌-◌, Bool, true, false, Option, none, some, List, [], ◌∷◌, ◌==◌, if◌then◌else◌,
}
use kurtar.Status.{includes}
use kurtar.Status.Settlement.{
  SettlementStatus, machine, sent, settled, recomputable_settlement_statuses,
}
use kurtar.Market.Rows.{find, total}
use kurtar.Settlement.Rate.{JsNumber}
use kurtar.Settlement.Batch
use kurtar.Settlement.Clawback

-- Why a batch is held: the recompute's own reason, with the shortfall, or an admin's.
pub data HoldReason : Type 0 where
  automatic : ℕ → HoldReason
  by_admin : HoldReason

-- The transfer's reference: the provider's, or the one of a batch with nothing to pay.
pub data TransferRef : Type 0 where
  psp_transfer : ℕ → TransferRef
  no_transfer_zero_net : TransferRef

pub record SettlementBatch : Type 0 where
  pub id : ℕ
  pub merchant_id : ℕ
  pub period_start : ℕ
  pub period_end : ℕ
  pub due_at : ℕ
  pub status : SettlementStatus
  pub gross_cents : ℕ
  pub bag_fee_cents : ℕ
  pub bag_fee_vat_cents : ℕ
  pub withholding_cents : ℕ
  pub membership_offset_cents : ℕ
  pub membership_offset_vat_cents : ℕ
  pub refund_clawback_cents : ℕ
  pub net_payout_cents : ℕ
  pub carried_shortfall_cents : ℕ
  pub carried_external_demand_cents : ℕ
  pub inherited_external_demand_cents : ℕ
  pub carried_demand_source_batch_id : Option ℕ
  pub shortfall_resolved_at : Option ℕ
  pub hold_reason : Option HoldReason
  pub payout_attempted_at : Option ℕ
  pub psp_transfer_ref : Option TransferRef
  pub sent_at : Option ℕ
  pub settled_at : Option ℕ

pub record SettlementLine : Type 0 where
  pub reservation_id : ℕ
  pub batch_id : ℕ
  pub redeemed_at : ℕ
  pub gross_cents : ℕ
  pub bag_fee_cents : ℕ
  pub bag_fee_vat_cents : ℕ
  pub withholding_cents : ℕ
  pub clawback_cents : ℕ
  pub clawback_applied_at : Option ℕ
  pub clawback_batch_id : Option ℕ

-- A row of `settlement_clawback_allocations`.
pub record ClawbackAllocation : Type 0 where
  pub batch_id : ℕ
  pub reservation_id : ℕ
  pub amount_cents : ℕ

-- A row of `settlement_carried_demand_claims`; `claimant_batch_id` is unique.
pub record CarriedDemandClaim : Type 0 where
  pub claimant_batch_id : ℕ
  pub source_batch_id : ℕ
  pub amount_cents : ℕ

pub data MembershipStatus : Type 0 where
  trial active past_due cancelled : MembershipStatus

-- `merchant_id` is unique.
pub record MembershipSubscription : Type 0 where
  pub id : ℕ
  pub merchant_id : ℕ
  pub status : MembershipStatus
  pub outstanding_cents : ℕ
  pub outstanding_vat_cents : ℕ
  pub current_period_start : ℕ
  pub current_period_end : ℕ
  pub period_paid_at : Option ℕ

-- The two outbox events of a payout, with their common payload.
pub record SentPayload : Type 0 where
  pub batch_id : ℕ
  pub merchant_id : ℕ
  pub period_start : ℕ
  pub period_end : ℕ
  pub net_payout_cents : ℕ
  pub psp_transfer_ref : TransferRef

pub data OutboxEvent : Type 0 where
  settlement_batch_sent_v1 settlement_batch_sent_invoice_v1 : SentPayload → OutboxEvent

pub data AuditAction : Type 0 where
  approved_batch held_batch retried_batch settled_batch bank_details_viewed : AuditAction

pub record AuditLog : Type 0 where
  pub actor_id : ℕ
  pub action : AuditAction
  pub entity_id : ℕ

pub record Ledger : Type 0 where
  pub batches : List SettlementBatch
  pub lines : List SettlementLine
  pub allocations : List ClawbackAllocation
  pub claims : List CarriedDemandClaim
  pub subscriptions : List MembershipSubscription
  pub outbox : List OutboxEvent
  pub audit_log : List AuditLog

pub record MerchantTerms : Type 0 where
  pub bag_fee_cents_override : Option JsNumber
  pub membership_exempt_until : Option ℕ

-- `effective_from` and the fee; the rows come newest first.
pub record PlatformPricing : Type 0 where
  pub effective_from : ℕ
  pub bag_fee_cents : JsNumber

-- What a recompute reads of the tables that it does not write: a merchant, a reservation's quantity,
-- whether its payment has a refund that is done or sent, and the prices.
pub record Surroundings : Type 0 where
  pub merchant : ℕ → Option MerchantTerms
  pub qty : ℕ → JsNumber
  pub is_refunded : ℕ → Bool
  pub pricings : List PlatformPricing

pub data Error : Type 0 where
  batch_not_found merchant_not_found no_platform_pricing : Error
  settlement_error : Batch.Error → Error
  clawback_error : Clawback.Error → Error
  ledger_divergence carried_demand_already_collected : Error
  not_approvable not_holdable payout_already_attempted not_retryable not_settleable : Error

abbrev pub batch_id_of : SettlementBatch → ℕ
batch_id_of b = b.id

abbrev pub line_id_of : SettlementLine → ℕ
line_id_of l = l.reservation_id

abbrev pub claimant_of : CarriedDemandClaim → ℕ
claimant_of c = c.claimant_batch_id

abbrev pub merchant_id_of : MembershipSubscription → ℕ
merchant_id_of s = s.merchant_id

abbrev pub has_status_in : List SettlementStatus → SettlementBatch → Bool
has_status_in statuses b = includes machine statuses b.status

abbrev pub paid_statuses : List SettlementStatus
paid_statuses = sent ∷ settled ∷ []

abbrev pub is_none {ℓ} : {A : Type ℓ} → Option A → Bool
is_none none = true
is_none (some x) = false

-- The guard of `recomputeBatch`: a batch whose amounts may still change.
abbrev pub is_recomputable : SettlementBatch → Bool
is_recomputable b =
    if has_status_in recomputable_settlement_statuses b
    then is_none b.payout_attempted_at
    else false

unfoldable pub find_batch : ℕ → List SettlementBatch → Option SettlementBatch
unfolding find
find_batch id batches = find batch_id_of id batches

unfoldable pub find_line : ℕ → List SettlementLine → Option SettlementLine
unfolding find
find_line id lines = find line_id_of id lines

-- `fullClawbackDemandCents`: what the platform paid out for a line.
abbrev pub full_clawback_demand_cents : SettlementLine → ℕ
full_clawback_demand_cents l =
    l.gross_cents - l.bag_fee_cents - l.bag_fee_vat_cents - l.withholding_cents

-- The sum of a line's allocations, and of a batch's.
abbrev pub allocated : ℕ → List ClawbackAllocation → ℕ
allocated reservation_id allocations =
    total (λ a. if a.reservation_id == reservation_id then a.amount_cents else 0) allocations

abbrev pub allocated_by : ℕ → List ClawbackAllocation → ℕ
allocated_by batch_id allocations =
    total (λ a. if a.batch_id == batch_id then a.amount_cents else 0) allocations

-- `Array.prototype.includes` on identifiers.
abbrev pub contains : ℕ → List ℕ → Bool
contains k [] = false
contains k (id ∷ ids) = if id == k then true else contains k ids
