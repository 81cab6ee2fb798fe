-- ===== src/Versioning/Tests.antt =====
-- The versioning of opportunities on concrete records: the theorems of its modules at inputs that meet
-- their hypotheses.
use procure_delta.Prelude.{
  ℕ, ◌≡◌, ◌≢◌, refl, String, true, false, none, some, List, [], ◌∷◌, find, if◌then◌else◌, str_eq,
}
use procure_delta.Prelude.Actions.{ok, err}
use procure_delta.Prelude.Int.{pos}
use procure_delta.Versioning.Schema.{
  CurrentValue, NormalizedOpportunityInput, Opportunity, VersionDb, Clocks, LifecycleLink, active,
  pending, RawRecord, has_raw_id, has_canonical_key, VersioningOutcome, identity_mismatch,
}
use procure_delta.Versioning.Upsert.{
  RawSourceRecord, ingest_raw_record, current_version, unchanged, upsert_opportunity_version,
  latest_version_number, upsert_found, upsert_known, add_version, keep_version, refresh_current,
}
use procure_delta.Versioning.Upsert.Numbering.{IsValid}
use procure_delta.Versioning.Upsert.Refinement.{view, summary_step}
use procure_delta.Versioning.Upsert.Specification.{NotBefore, upsert_opportunity_version-view}
use procure_delta.Versioning.Upsert.Links.{Unlinked, upsert_opportunity_version-Unlinked}
use procure_delta.Versioning.History.{
  VersionStep, ingesting, normalizing, version_history, version_step,
}
use procure_delta.Versioning.History.Payloads.{names, IsKeyed}
use procure_delta.Versioning.History.Redelivery.{ingest_raw_record_again}
use procure_delta.Versioning.History.Effective.{version_history-IsValid, version_history-NotBefore}

abbrev no_rows : VersionDb
no_rows = record { raws = []; opportunities = []; versions = []; links = []; next_id = 1 }

no_rows-IsValid : IsValid no_rows
no_rows-IsValid = record {
  numbered = tt;
  version_ids = tt;
  opportunity_ids = tt;
  apart = tt;
  currents = tt;
}

abbrev delivery : String → RawSourceRecord
delivery payload = record {
  source_record_id = "r";
  source_updated_at = none;
  raw_payload = payload;
  http_etag = none;
  http_last_modified = none;
}

abbrev road : String → CurrentValue
road title = record {
  title = title;
  buyer_name = "City";
  procurement_type = none;
  lifecycle_stage = "tender";
  estimated_amount = some (pos 100);
  currency = "KRW";
  published_at = none;
  closes_at = none;
  status = none;
}

abbrev input : String → ℕ → NormalizedOpportunityInput
input title at = record {
  source_id = 0;
  source_record_id = "r";
  canonical_key = "k";
  value = road title;
  effective_at = at;
  normalized_json = title;
  normalized_sha256 = title;
}

abbrev reading : ℕ → Clocks
reading now = record { now = now; decision_at = some now; observed_at = some now }

abbrev steps : List VersionStep
steps =
    ingesting 1 0 "p" (delivery "p")
    ∷ normalizing (reading 2) (some 1) (input "Road" 10)
    ∷ ingesting 3 0 "q" (delivery "q")
    ∷ []

abbrev link : LifecycleLink
link = record {
  id = 9;
  parent_opportunity_id = 2;
  child_opportunity_id = 7;
  link_status = active;
  retracted_at = none;
}

-- The tables after these steps, with a link at the opportunity.
abbrev before : VersionDb
before = record (version_history steps no_rows) { links = link ∷ [] }

before-IsValid : IsValid before
before-IsValid =
    let v = version_history-IsValid steps no_rows no_rows-IsValid in
    record {
      numbered = v.numbered;
      version_ids = v.version_ids;
      opportunity_ids = v.opportunity_ids;
      apart = v.apart;
      currents = v.currents;
    }

abbrev raw_again : RawRecord
raw_again = record {
  id = 4;
  source_id = 0;
  source_record_id = "r";
  fetched_at = 3;
  source_updated_at = none;
  payload_json = "q";
  payload_sha256 = "q";
  http_etag = none;
  http_last_modified = none;
  normalization_status = pending;
  normalized_at = none;
  normalized_version_id = none;
}

abbrev known_road : Opportunity
known_road = record {
  id = 2;
  canonical_key = "k";
  value = road "Road";
  current_version_id = some 3;
  current_effective_at = some 10;
}

abbrev second : VersioningOutcome
second = record { created = true; opportunity_id = 2; version_id = 5; version_number = 2 }

there : find (has_raw_id 4) before.raws ≡ some raw_again
unfolding version_history version_step ingest_raw_record upsert_opportunity_version upsert_found
    upsert_known add_version latest_version_number keep_version refresh_current
there = refl

known : find (has_canonical_key "k") before.opportunities ≡ some known_road
unfolding version_history version_step ingest_raw_record upsert_opportunity_version upsert_found
    upsert_known add_version latest_version_number keep_version refresh_current
known = refl

returns : (upsert_opportunity_version (reading 5) (some 4) (input "Bridge" 20) before).0 ≡ ok second
unfolding version_history version_step ingest_raw_record upsert_opportunity_version upsert_found
    upsert_known add_version latest_version_number keep_version refresh_current
returns = refl

different : unchanged (input "Bridge" 20) (current_version known_road before) ≡ none
unfolding version_history version_step ingest_raw_record upsert_opportunity_version upsert_found
    upsert_known add_version latest_version_number keep_version refresh_current
different = refl

mismatch_test :
    (upsert_opportunity_version
      (reading 5)
      (some 4)
      (record (input "Bridge" 20) { source_id = 1 })
      before).0
    ≡ err identity_mismatch
unfolding version_history version_step ingest_raw_record upsert_opportunity_version upsert_found
    upsert_known add_version latest_version_number keep_version refresh_current
mismatch_test = refl

older_test :
    view "k" (upsert_opportunity_version (reading 5) (some 4) (input "Bridge" 9) before).1
    ≡ view "k" before
unfolding version_history version_step ingest_raw_record upsert_opportunity_version upsert_found
    upsert_known add_version latest_version_number keep_version refresh_current
older_test = refl

version_history-IsValid_example : IsValid (
    version_history
      (ingesting 6 0 "s" (delivery "s") ∷ normalizing (reading 7) (some 4) (input "Bridge" 20) ∷ [])
      before)
version_history-IsValid_example =
    version_history-IsValid
      (ingesting 6 0 "s" (delivery "s") ∷ normalizing (reading 7) (some 4) (input "Bridge" 20) ∷ [])
      before before-IsValid

version_history-NotBefore_example :
    NotBefore (view "k" before) (
      view "k" (version_history (normalizing (reading 7) (some 4) (input "Bridge" 20) ∷ []) before))
version_history-NotBefore_example =
    version_history-NotBefore (normalizing (reading 7) (some 4) (input "Bridge" 20) ∷ []) before "k"
      before-IsValid

upsert_opportunity_version-view_example :
    view "k" (upsert_opportunity_version (reading 5) (some 4) (input "Bridge" 20) before).1 ≡ (
      if str_eq "k" "k"
      then some (summary_step (input "Bridge" 20) (view "k" before))
      else view "k" before)
upsert_opportunity_version-view_example =
    upsert_opportunity_version-view (reading 5) 4 raw_again (input "Bridge" 20) before second "k"
      before-IsValid there refl returns

has_version : known_road.current_version_id ≢ none
has_version e = cc

upsert_opportunity_version-Unlinked_example :
    Unlinked 2 (upsert_opportunity_version (reading 5) (some 4) (input "Bridge" 20) before).1.links
upsert_opportunity_version-Unlinked_example =
    upsert_opportunity_version-Unlinked (reading 5) 4 raw_again (input "Bridge" 20) known_road
      before second there refl known has_version refl different returns

-- The second delivery comes after the first was normalized.
abbrev meanwhile : List VersionStep
meanwhile = normalizing (reading 7) (some 1) (input "Bridge" 20) ∷ []

no_rows-IsKeyed : IsKeyed no_rows
no_rows-IsKeyed = unfold names in tt

ingest_raw_record_again_example :
    let (first, db') = ingest_raw_record 8 0 "s" (delivery "s") no_rows in
    let db'' = version_history meanwhile db' in
    ingest_raw_record 9 0 "s" (delivery "s") db''
    ≡ (record { created = false; payload_sha256 = "s"; raw_record_id = first.raw_record_id }, db'')
ingest_raw_record_again_example =
    ingest_raw_record_again 8 9 0 "s" (delivery "s") (delivery "s") meanwhile no_rows
      no_rows-IsKeyed refl
