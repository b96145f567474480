-- ===== src/Ledger/Payout.antt =====
-- backend/src/modules/settlements/settlement-payout.service.ts: one batch's payout, with the
-- provider behind the facade as an argument.
use kurtar.Prelude.{
  ℕ, Bool, false, Option, none, some, List, [], ◌∷◌, ◌==◌, if◌then◌else◌, Result, ok, err,
}
use kurtar.Status.{allowed_from_statuses_for}
use kurtar.Status.Settlement.{SettlementStatus, machine, approved, held, sent}
use kurtar.Market.Rows.{find, write, matched}
use kurtar.Ledger.State.{
  SettlementBatch, Ledger, Surroundings, TransferRef, psp_transfer, no_transfer_zero_net,
  SentPayload, settlement_batch_sent_v1, settlement_batch_sent_invoice_v1, Error, batch_not_found,
  not_retryable, retried_batch, find_batch, batch_id_of, has_status_in, is_none,
}
use kurtar.Ledger.Recompute.{recompute_batch}
use kurtar.Ledger.Admin.{audited, admin_get}

-- `facade.payout(merchantRef, amount, ref)`, as a function of the merchant whose key or IBAN the
-- service passes: the transfer's reference, or it threw.
abbrev pub PayoutProvider : Type 0
PayoutProvider = ℕ → ℕ → ℕ → Option ℕ

-- A call that was made.
pub record PayoutCall : Type 0 where
  pub merchant_id : ℕ
  pub amount_cents : ℕ
  pub batch_id : ℕ

abbrev pub sent_from_statuses : List SettlementStatus
sent_from_statuses = allowed_from_statuses_for machine sent

abbrev pub sent_row : ℕ → TransferRef → SettlementBatch → SettlementBatch
sent_row now ref b = record b { status = sent; psp_transfer_ref = some ref; sent_at = some now }

abbrev pub payload_of : TransferRef → SettlementBatch → SentPayload
payload_of ref b = record {
  batch_id = b.id;
  merchant_id = b.merchant_id;
  period_start = b.period_start;
  period_end = b.period_end;
  net_payout_cents = b.net_payout_cents;
  psp_transfer_ref = ref;
}

abbrev pub publish_sent : TransferRef → Option SettlementBatch → Ledger → Ledger
publish_sent ref none db = db
publish_sent ref (some b) db = record db {
  outbox =
      settlement_batch_sent_invoice_v1 (payload_of ref b)
      ∷ settlement_batch_sent_v1 (payload_of ref b)
      ∷ db.outbox;
}

-- `markSent`: the events are published with the row, and only by the update that matched.
unfoldable pub mark_sent : ℕ → ℕ → TransferRef → Ledger → Ledger
unfolding find_batch matched write find
mark_sent now id ref db =
    let batches =
      write batch_id_of id (has_status_in sent_from_statuses) (sent_row now ref) db.batches in
    if matched batch_id_of id (has_status_in sent_from_statuses) db.batches
    then publish_sent ref (find_batch id batches) (record db { batches = batches })
    else db

abbrev pub call_of : SettlementBatch → PayoutCall
call_of b = record {
  merchant_id = b.merchant_id;
  amount_cents = b.net_payout_cents;
  batch_id = b.id;
}

-- The provider's call with the row that was read, and what follows it.
unfoldable pub call_provider :
    PayoutProvider → ℕ → SettlementBatch → Ledger → List PayoutCall × Ledger
unfolding mark_sent
call_provider provider now b db = (
  call_of b ∷ [],
  elim (provider b.merchant_id b.net_payout_cents b.id) [
    | none ↦ db
    | some ref ↦ mark_sent now b.id (psp_transfer ref) db
  ],
)

-- `status: "APPROVED", payoutAttemptedAt: null`.
abbrev pub can_stamp : SettlementBatch → Bool
can_stamp b = if has_status_in (approved ∷ []) b then is_none b.payout_attempted_at else false

abbrev pub stamp_row : ℕ → SettlementBatch → SettlementBatch
stamp_row now b = record b { payout_attempted_at = some now }

-- `executeOne` after its read: `b` is the row that was read, the ledger may have moved on.
unfoldable pub execute_read :
    PayoutProvider → ℕ → SettlementBatch → Ledger → List PayoutCall × Ledger
unfolding call_provider mark_sent matched write find
execute_read provider now b db =
    if has_status_in (approved ∷ []) b
    then (if b.net_payout_cents == 0
        then ([], mark_sent now b.id no_transfer_zero_net db)
        else (if is_none b.payout_attempted_at
            then (if matched batch_id_of b.id can_stamp db.batches
                then call_provider provider now b (record db {
                  batches = write batch_id_of b.id can_stamp (stamp_row now) db.batches;
                })
                else ([], db))
            else call_provider provider now b db))
    else ([], db)

unfoldable pub execute_one :
    PayoutProvider → ℕ → ℕ → Ledger → Result Error (List PayoutCall × Ledger)
unfolding find_batch execute_read
execute_one provider now id db = elim (find_batch id db.batches) [
  | none ↦ err batch_not_found
  | some b ↦ ok (execute_read provider now b db)
]

-- `adminRetry`: a held batch is recomputed, an approved one paid out now.
unfoldable pub retry_found :
    Surroundings → PayoutProvider → ℕ → ℕ → SettlementBatch → Ledger → Ledger × Option Error
unfolding recompute_batch execute_one admin_get
retry_found around provider admin_id now b db =
    let db1 = audited admin_id retried_batch b.id db in
    if has_status_in (held ∷ []) b
    then elim (recompute_batch around b.id now [] db1) [
      | err e ↦ (db1, some e)
      | ok (_, db2) ↦ admin_get b.id admin_id db2
    ]
    else (if has_status_in (approved ∷ []) b
        then elim (execute_one provider now b.id db1) [
          | err e ↦ (db1, some e)
          | ok (_, db2) ↦ admin_get b.id admin_id db2
        ]
        else (db, some not_retryable))

unfoldable pub admin_retry :
    Surroundings → PayoutProvider → ℕ → ℕ → ℕ → Ledger → Ledger × Option Error
unfolding find_batch retry_found
admin_retry around provider id admin_id now db = elim (find_batch id db.batches) [
  | none ↦ (db, some batch_not_found)
  | some b ↦ retry_found around provider admin_id now b db
]
