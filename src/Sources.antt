-- ===== src/Sources.antt =====
-- The client with which the adapters of external sources send their requests.
pub mod Http
mod Tests
