-- ===== src/Cost.antt =====
-- internal/cost: the reserve-then-reconcile cost gate, its price book, ledger and counters.
pub mod Money
pub mod Decimal
pub mod Prices
pub mod Counters
pub mod Types
pub mod Ledger
pub mod Gate
mod Examples
