-- ===== src/Ledger/History.antt =====
-- The histories of the settlement ledger: any sequence of the services' transactions.
pub mod Reconciled
pub mod Kept
pub mod Frozen
pub mod SameAmount
pub mod SentOnce
pub mod Night
use kurtar.Prelude.{ℕ, ◌≡◌, Option, none, List, ok, Bool}
use kurtar.Market.Rows.{find}
use kurtar.Ledger.State.{SettlementBatch, Ledger, Surroundings, find_batch, batch_id_of}
use kurtar.Ledger.Pass.{PendingSettlementLine}
use kurtar.Ledger.Recompute.{recompute_batch}
use kurtar.Ledger.Open.{open_batch}
use kurtar.Ledger.Admin.{approve_guarded, admin_hold, admin_mark_settled}
use kurtar.Ledger.Payout.{PayoutProvider, execute_read}

-- One transaction, or a change of the tables that the recompute does not reconcile. A payout goes
-- on with a row that it read at any time before.
pub data Step : Ledger → Ledger → Type 0 where
  recomputed :
      (around : Surroundings) (id now : ℕ) (pending : List PendingSettlementLine) {db db2 : Ledger}
      {b : SettlementBatch}
      → recompute_batch around id now pending db ≡ ok (b, db2)
      → Step db db2
  opened :
      (new_id merchant_id day : ℕ) (holidays : List ℕ) {db : Ledger}
      → find batch_id_of new_id db.batches ≡ none
      → Step db (open_batch new_id merchant_id day holidays db).1
  approved_by : (id admin_id : ℕ) {db : Ledger} → Step db (approve_guarded id admin_id db).0
  held_by : (id admin_id : ℕ) {db : Ledger} → Step db (admin_hold id admin_id db).0
  settled_by :
      (id admin_id now : ℕ) {db : Ledger} → Step db (admin_mark_settled id admin_id now db).0
  paid_out :
      (provider : PayoutProvider) (now : ℕ) (read : SettlementBatch) {db : Ledger}
      → Step db (execute_read provider now read db).1
  elsewhere :
      {db db2 : Ledger}
      → db2.batches ≡ db.batches
      → db2.lines ≡ db.lines
      → db2.allocations ≡ db.allocations
      → db2.claims ≡ db.claims
      → Step db db2

pub data Reaches : Ledger → Ledger → Type 0 where
  start : {db : Ledger} → Reaches db db
  step : {db db2 db3 : Ledger} → Reaches db db2 → Step db2 db3 → Reaches db db3
