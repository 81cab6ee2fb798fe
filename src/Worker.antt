-- ===== src/Worker.antt =====
-- The workers' failures and retries.
pub mod Retry
pub mod Failures
mod Tests
