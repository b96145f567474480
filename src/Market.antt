-- ===== src/Market.antt =====
-- The marketplace core of backend/src/modules: offers, reservations and payments over one database.
pub mod History
pub mod Coherence
pub mod Moves
pub mod Conservation
pub mod Rows
pub mod State
pub mod Stock
pub mod Refunds
pub mod Reservations
pub mod Fanout
pub mod Settle
pub mod Sweeper
