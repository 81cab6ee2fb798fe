-- ===== src/Versioning/History/Effective.antt =====
-- Histories of apps/api/app/repositories/opportunities.py.
use procure_delta.Prelude.{ℕ, ◌≡◌, refl, String, List, [], ◌∷◌, inl, inr, Option-cases, find}
use procure_delta.Prelude.Actions.{ok, err}
use procure_delta.Versioning.Schema.{VersionDb, VersioningOutcome, Versioned}
use procure_delta.Versioning.Upsert.{
  RawSourceRecord, same_payload, ingest_raw_record, upsert_opportunity_version,
}
use procure_delta.Versioning.Upsert.Refinement.{view}
use procure_delta.Versioning.Upsert.Specification.{
  NotBefore, NotBefore-refl, NotBefore-trans, upsert-NotBefore,
}
use procure_delta.Versioning.Upsert.Numbering.{IsValid}
use procure_delta.Versioning.Upsert.Invariant.{
  upsert_opportunity_version-IsValid, ingest_raw_record-IsValid,
}
use procure_delta.Versioning.History.{
  VersionStep, ingesting, normalizing, committed_state, version_step, version_history,
}

committed_state-IsValid :
    (db : VersionDb) (r : Versioned)
    → IsValid db
    → ((o : VersioningOutcome) → r.0 ≡ ok o → IsValid r.1)
    → IsValid (committed_state db r)
committed_state-IsValid db (ok o, db') v h = h o refl
committed_state-IsValid db (err e, db') v h = v

pub version_step-IsValid :
    (s : VersionStep) (db : VersionDb) → IsValid db → IsValid (version_step s db)
unfolding version_step
version_step-IsValid (ingesting now source checksum r) db v =
    ingest_raw_record-IsValid now source checksum r db v
version_step-IsValid (normalizing c raw n) db v =
    committed_state-IsValid db (upsert_opportunity_version c raw n db) v
      (λ o e. upsert_opportunity_version-IsValid c raw n db v e)

-- Whatever is ingested and normalized from valid tables, the versions of each opportunity are numbered
-- from 1 without a gap in the order in which they came, no two opportunities share a key, and each has
-- a current version, which is one of its own.
pub version_history-IsValid :
    (steps : List VersionStep) (db : VersionDb) → IsValid db → IsValid (version_history steps db)
unfolding version_history
version_history-IsValid [] db v = v
version_history-IsValid (s ∷ steps) db v =
    version_history-IsValid steps (version_step s db) (version_step-IsValid s db v)

ingest-view :
    (now source : ℕ) (checksum : String) (r : RawSourceRecord) (db : VersionDb) (key : String)
    → view key (ingest_raw_record now source checksum r db).1 ≡ view key db
unfolding ingest_raw_record
ingest-view now source checksum r db key =
    elim (Option-cases (find (same_payload source r.source_record_id checksum) db.raws)) [
      | inl new ↦ rw new refl
      | inr (x, there) ↦ rw there refl
    ]

committed_state-NotBefore :
    (key : String) (db : VersionDb) (r : Versioned)
    → ((o : VersioningOutcome) → r.0 ≡ ok o → NotBefore (view key db) (view key r.1))
    → NotBefore (view key db) (view key (committed_state db r))
committed_state-NotBefore key db (ok o, db') h = h o refl
committed_state-NotBefore key db (err e, db') h = NotBefore-refl (view key db)

version_step-NotBefore :
    (key : String) (s : VersionStep) (db : VersionDb)
    → IsValid db
    → NotBefore (view key db) (view key (version_step s db))
unfolding version_step
version_step-NotBefore key (ingesting now source checksum r) db v =
    rw (ingest-view now source checksum r db key) (NotBefore-refl (view key db))
version_step-NotBefore key (normalizing c raw n) db v =
    committed_state-NotBefore key db (upsert_opportunity_version c raw n db)
      (λ o e. upsert-NotBefore c raw n db key v e)

-- From valid tables, whatever is ingested and normalized, in whatever order the states of an
-- opportunity arrive, an opportunity that is known stays known under its canonical key, and the time
-- since when its state is effective never goes back.
pub version_history-NotBefore :
    (steps : List VersionStep) (db : VersionDb) (key : String)
    → IsValid db
    → NotBefore (view key db) (view key (version_history steps db))
unfolding version_history
version_history-NotBefore [] db key v = NotBefore-refl (view key db)
version_history-NotBefore (s ∷ steps) db key v =
    NotBefore-trans (view key db) (view key (version_step s db))
      (view key (version_history steps (version_step s db))) (version_step-NotBefore key s db v)
      (version_history-NotBefore steps (version_step s db) key (version_step-IsValid s db v))
