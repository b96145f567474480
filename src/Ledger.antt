-- ===== src/Ledger.antt =====
-- The ledger of backend/src/modules/settlements: the rows of batches, lines, clawback allocations
-- and carried-demand claims, the recompute of a batch, the admin's actions and the payout.
pub mod State
pub mod Membership
pub mod Clawback
pub mod Carried
pub mod Pass
pub mod Recompute
pub mod Sums
pub mod Reconciled
pub mod Open
pub mod Nightly
pub mod Admin
pub mod Payout
pub mod History
