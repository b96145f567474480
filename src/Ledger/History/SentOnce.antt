-- ===== src/Ledger/History/SentOnce.antt =====
-- settlement-payout.service.ts: a batch that was paid out is not sent a second time.
use kurtar.Prelude.{ℕ, ◌≡◌, refl, sym, ◌∙◌, true, false, some, inl, inr}
use kurtar.Status.{includes}
use kurtar.Status.Settlement.{
  SettlementStatus, machine, pending, calculated, approved, held, sent, settled, failed,
}
use kurtar.Market.Rows.{find, matched}
use kurtar.Market.Rows.Laws.{found-matched}
use kurtar.Ledger.State.{
  SettlementBatch, Ledger, TransferRef, batch_id_of, has_status_in, paid_statuses, is_none,
}
use kurtar.Ledger.Payout.{sent_from_statuses, mark_sent}
use kurtar.Ledger.History.{Reaches}
use kurtar.Ledger.History.Frozen.{payout_attempted-IsKept}

paid_not_sendable :
    (s : SettlementStatus)
    → includes machine paid_statuses s ≡ true
    → includes machine sent_from_statuses s ≡ false
paid_not_sendable pending h = cc
paid_not_sendable calculated h = cc
paid_not_sendable approved h = cc
paid_not_sendable held h = cc
paid_not_sendable sent h = refl
paid_not_sendable settled h = refl
paid_not_sendable failed h = cc

-- If a batch whose payout was attempted is sent or settled, then in every later state, whatever
-- transactions followed, `markSent` for it, with any transfer's reference, changes nothing: no row
-- is written, and the two events are not published again.
pub mark_sent_once :
    (db db2 : Ledger) (b : SettlementBatch) (now : ℕ) (ref : TransferRef)
    → Reaches db db2
    → is_none b.payout_attempted_at ≡ false
    → has_status_in paid_statuses b ≡ true
    → find batch_id_of b.id db.batches ≡ some b
    → mark_sent now b.id ref db2 ≡ db2
unfolding mark_sent
mark_sent_once db db2 b now ref r stamped paid here =
    let (c, found, kept) = payout_attempted-IsKept db db2 b r stamped here in
    elim kept.paid [
      | inl unpaid ↦ let impossible : true ≡ false = sym paid ∙ unpaid in cc
      | inr still ↦
          let missed : matched batch_id_of b.id (has_status_in sent_from_statuses) db2.batches
              ≡ false =
            found-matched batch_id_of b.id (has_status_in sent_from_statuses) db2.batches c found
            ∙ paid_not_sendable c.status still in
          rw missed refl
    ]
