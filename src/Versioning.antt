-- ===== src/Versioning.antt =====
-- Raw records, and the versions of the opportunities that they describe.
pub mod Schema
pub mod Upsert
pub mod History
mod Tests
