-- ===== src/Credits.antt =====
-- Credit accounts, reservations and the credit ledger.
pub mod Schema
pub mod Session
pub mod Service
pub mod History
pub mod Fence
mod Tests
