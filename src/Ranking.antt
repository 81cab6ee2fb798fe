-- ===== src/Ranking.antt =====
-- The hard eligibility rules before ranking.
pub mod Claims
pub mod Eligibility
pub mod Score
mod Tests
