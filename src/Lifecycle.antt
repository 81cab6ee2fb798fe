-- ===== src/Lifecycle.antt =====
-- Lifecycle links between opportunities.
pub mod Candidate
pub mod Linker
mod Tests
