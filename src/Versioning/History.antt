-- ===== src/Versioning/History.antt =====
-- Any sequence of ingested records and normalizations, each committed when it returns and rolled back
-- when it raises.
pub mod Effective
pub mod Payloads
pub mod Redelivery
use procure_delta.Prelude.{ℕ, String, Option, List, [], ◌∷◌}
use procure_delta.Prelude.Actions.{Result, ok, err}
use procure_delta.Versioning.Schema.{NormalizedOpportunityInput, VersionDb, Clocks, Versioned}
use procure_delta.Versioning.Upsert.{RawSourceRecord, ingest_raw_record, upsert_opportunity_version}

pub data VersionStep : Type 0 where
  ingesting : ℕ → ℕ → String → RawSourceRecord → VersionStep
  normalizing : Clocks → Option ℕ → NormalizedOpportunityInput → VersionStep

abbrev pub committed_state : VersionDb → Versioned → VersionDb
committed_state db (ok _, db') = db'
committed_state db (err _, _) = db

unfoldable pub version_step : VersionStep → VersionDb → VersionDb
version_step (ingesting now source checksum r) db = (ingest_raw_record now source checksum r db).1
version_step (normalizing c raw n) db = committed_state db (upsert_opportunity_version c raw n db)

unfoldable pub version_history : List VersionStep → VersionDb → VersionDb
version_history [] db = db
version_history (s ∷ ss) db = version_history ss (version_step s db)
