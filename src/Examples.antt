-- ===== src/Examples.antt =====
-- Concrete runs: one market day, one settlement batch, and each theorem at an input of them.
pub mod Payments
pub mod Settlement
mod Ledger
mod BusinessDays
pub mod Day
pub mod Market
