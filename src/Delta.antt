-- ===== src/Delta.antt =====
-- The impact of the changes between two versions of an opportunity.
pub mod Impact
pub mod Engine
mod Tests
