-- ===== src/Settlement.antt =====
-- backend/src/modules/settlements: what a merchant is paid, and when.
pub mod Clawback
pub mod Rate
pub mod Batch
