-- ===== src/Versioning/Upsert.antt =====
-- `upsert_opportunity_version` of apps/api/app/repositories/opportunities.py and `ingest_raw_record` of
-- apps/api/app/services/ingest.py. The advisory locks make a call atomic. The checksum of a payload is
-- an argument.
pub mod Numbering
pub mod Preserved
pub mod Invariant
pub mod Refinement
pub mod Branches
pub mod Specification
pub mod Links
use Prim.Native.Nat.{max}
use procure_delta.Prelude.{
  ℕ, suc, String, Bool, true, false, not, ◌&&◌, ◌||◌, Option, none, some, List, [], ◌∷◌, ◌==◌,
  str_eq, ltb, leb, if◌then◌else◌, find, put_row, is_some, get_or,
}
use procure_delta.Prelude.Actions.{Result, ok, err}
use procure_delta.Versioning.Schema.{
  NormalizationStatus, pending, normalized, RawRecord, CurrentValue, NormalizedOpportunityInput,
  Opportunity, TransitionKind, initial, current, historical, OpportunityVersion, LinkStatus, active,
  retracted, LifecycleLink, VersionDb, VersioningError, unpersisted, identity_mismatch, missing_row,
  no_timestamp, VersioningOutcome, Clocks, has_raw_id, has_canonical_key, has_version_id, Versioned,
}

-- What a source delivers.
pub record RawSourceRecord : Type 0 where
  pub source_record_id : String
  pub source_updated_at : Option ℕ
  pub raw_payload : String
  pub http_etag : Option String
  pub http_last_modified : Option String

-- The unique constraint on raw records.
abbrev pub same_payload : ℕ → String → String → RawRecord → Bool
same_payload source record' checksum r =
    (r.source_id == source) && str_eq r.source_record_id record' && str_eq r.payload_sha256 checksum

abbrev pub new_raw : ℕ → ℕ → ℕ → String → RawSourceRecord → RawRecord
new_raw id now source checksum record' = record {
  id = id;
  source_id = source;
  source_record_id = record'.source_record_id;
  fetched_at = now;
  source_updated_at = record'.source_updated_at;
  payload_json = record'.raw_payload;
  payload_sha256 = checksum;
  http_etag = record'.http_etag;
  http_last_modified = record'.http_last_modified;
  normalization_status = pending;
  normalized_at = none;
  normalized_version_id = none;
}

-- Whether a row was created, the payload's digest and the row's key.
pub record IngestOutcome : Type 0 where
  pub created : Bool
  pub payload_sha256 : String
  pub raw_record_id : ℕ

abbrev pub ingest_found :
    ℕ → ℕ → String → RawSourceRecord → Option RawRecord → VersionDb → IngestOutcome × VersionDb
ingest_found now source checksum record' (some r) db =
    (record { created = false; payload_sha256 = checksum; raw_record_id = r.id }, db)
ingest_found now source checksum record' none db = (
  record { created = true; payload_sha256 = checksum; raw_record_id = db.next_id },
  record db {
    raws = new_raw db.next_id now source checksum record' ∷ db.raws;
    next_id = suc db.next_id;
  },
)

unfoldable pub ingest_raw_record :
    ℕ → ℕ → String → RawSourceRecord → VersionDb → IngestOutcome × VersionDb
ingest_raw_record now source checksum record' db =
    ingest_found now source checksum record'
      (find (same_payload source record'.source_record_id checksum) db.raws) db

-- The raw record after its normalization.
abbrev pub mark_normalized : Clocks → Option ℕ → RawRecord → RawRecord
mark_normalized c version r = record r {
  normalization_status = normalized;
  normalized_at = some c.now;
  normalized_version_id = version;
}

abbrev pub put_raw : Clocks → Option ℕ → RawRecord → VersionDb → VersionDb
put_raw c version r db = record db {
  raws = put_row (λ (x : RawRecord). x.id) (mark_normalized c version r) db.raws;
}

abbrev pub put_opportunity : Opportunity → List Opportunity → List Opportunity
put_opportunity = put_row (λ o. o.id)

-- A raw record that has a version already.
abbrev pub processed : Clocks → RawRecord → Option OpportunityVersion → VersionDb → Versioned
processed c raw none db = (err missing_row, db)
processed c raw (some v) db = (
  ok (record {
    created = false;
    opportunity_id = v.opportunity_id;
    version_id = v.id;
    version_number = v.version_number;
  }),
  put_raw c (some v.id) raw db,
)

abbrev pub new_opportunity : ℕ → NormalizedOpportunityInput → Opportunity
new_opportunity id n = record {
  id = id;
  canonical_key = n.canonical_key;
  value = n.value;
  current_version_id = none;
  current_effective_at = some n.effective_at;
}

-- `session.get` by an optional key.
abbrev pub current_version : Opportunity → VersionDb → Option OpportunityVersion
current_version o db = elim o.current_version_id [
  | none ↦ none
  | some id ↦ find (has_version_id id) db.versions
]

-- The current version, where it has the input's digest.
abbrev pub unchanged :
    NormalizedOpportunityInput → Option OpportunityVersion → Option OpportunityVersion
unchanged n none = none
unchanged n (some v) = if str_eq v.normalized_sha256 n.normalized_sha256 then some v else none

abbrev pub is_after : ℕ → Option ℕ → Bool
is_after at none = true
is_after at (some old) = ltb old at

-- `current_effective_at is None or effective_at >= current_effective_at`
abbrev pub becomes_current : ℕ → Option ℕ → Bool
becomes_current at none = true
becomes_current at (some old) = leb old at

unfoldable pub refresh_current : NormalizedOpportunityInput → Opportunity → Opportunity
refresh_current n o =
    if is_after n.effective_at o.current_effective_at
    then record o { current_effective_at = some n.effective_at }
    else o

-- An input whose state the opportunity has already.
unfoldable pub keep_version :
    Clocks
    → RawRecord
    → NormalizedOpportunityInput
    → Opportunity
    → OpportunityVersion
    → VersionDb
    → Versioned
keep_version c raw n o v db = (
  ok (record {
    created = false;
    opportunity_id = o.id;
    version_id = v.id;
    version_number = v.version_number;
  }),
  put_raw c (some v.id) raw
      (record db { opportunities = put_opportunity (refresh_current n o) db.opportunities }),
)

-- `func.max` over the versions of an opportunity; 0 where there are none.
unfoldable pub latest_version_number : ℕ → List OpportunityVersion → ℕ
latest_version_number id [] = 0
latest_version_number id (v ∷ vs) =
    max (if v.opportunity_id == id then v.version_number else 0) (latest_version_number id vs)

abbrev pub transition_kind_of : Bool → Option ℕ → TransitionKind
transition_kind_of true none = initial
transition_kind_of true (some _) = current
transition_kind_of false _ = historical

abbrev pub new_version :
    Clocks
    → RawRecord
    → NormalizedOpportunityInput
    → Opportunity
    → ℕ
    → VersionDb
    → OpportunityVersion
new_version c raw n o number db = record {
  id = db.next_id;
  opportunity_id = o.id;
  raw_record_id = raw.id;
  version_number = number;
  source_record_id = raw.source_record_id;
  effective_at = n.effective_at;
  normalized_json = n.normalized_json;
  normalized_sha256 = n.normalized_sha256;
  extraction_version = "normalizer-v1";
  previous_current_version_id = o.current_version_id;
  transition_kind =
      transition_kind_of (becomes_current n.effective_at o.current_effective_at)
        o.current_version_id;
  transition_at = c.decision_at;
}

abbrev pub touches : ℕ → LifecycleLink → Bool
touches id l = (l.parent_opportunity_id == id) || (l.child_opportunity_id == id)

abbrev pub is_active : LinkStatus → Bool
is_active active = true
is_active retracted = false

abbrev pub retract_links : ℕ → ℕ → List LifecycleLink → List LifecycleLink
retract_links id at [] = []
retract_links id at (l ∷ ls) =
    (if is_active l.link_status && touches id l
      then record l { link_status = retracted; retracted_at = some at }
      else l)
    ∷ retract_links id at ls

-- The links of the version that is replaced, where there is one.
abbrev pub retract_replaced :
    Option ℕ → Option ℕ → ℕ → List LifecycleLink → Option (List LifecycleLink)
retract_replaced none at id ls = some ls
retract_replaced (some _) none id ls = none
retract_replaced (some _) (some at) id ls = some (retract_links id at ls)

abbrev pub promote : NormalizedOpportunityInput → ℕ → Opportunity → Opportunity
promote n version o = record o {
  current_version_id = some version;
  current_effective_at = some n.effective_at;
  value = n.value;
}

abbrev pub make_current :
    Clocks
    → RawRecord
    → NormalizedOpportunityInput
    → Opportunity
    → ℕ
    → ℕ
    → Option (List LifecycleLink)
    → VersionDb
    → Versioned
make_current c raw n o version number none db = (err no_timestamp, db)
make_current c raw n o version number (some links) db = (
  ok (record {
    created = true;
    opportunity_id = o.id;
    version_id = version;
    version_number = number;
  }),
  put_raw c (some version) raw (record db {
    links = links;
    opportunities = put_opportunity (promote n version o) db.opportunities;
  }),
)

-- The tables with a new version.
abbrev pub with_version :
    Clocks → RawRecord → NormalizedOpportunityInput → Opportunity → VersionDb → VersionDb
with_version c raw n o db = record db {
  versions = new_version c raw n o (suc (latest_version_number o.id db.versions)) db ∷ db.versions;
  next_id = suc db.next_id;
}

-- The new version becomes the current one, or stays a historical one.
abbrev pub place_version :
    Bool → Clocks → RawRecord → NormalizedOpportunityInput → Opportunity → VersionDb → Versioned
place_version true c raw n o db =
    make_current c raw n o db.next_id (suc (latest_version_number o.id db.versions))
      (retract_replaced o.current_version_id c.observed_at o.id db.links)
      (with_version c raw n o db)
place_version false c raw n o db = (
  ok (record {
    created = true;
    opportunity_id = o.id;
    version_id = db.next_id;
    version_number = suc (latest_version_number o.id db.versions);
  }),
  put_raw c (some db.next_id) raw (with_version c raw n o db),
)

-- A new version, which becomes the current one unless a later state is known.
unfoldable pub add_version :
    Clocks → RawRecord → NormalizedOpportunityInput → Opportunity → VersionDb → Versioned
add_version c raw n o db =
    place_version (becomes_current n.effective_at o.current_effective_at) c raw n o db

abbrev pub keep_or_add :
    Clocks
    → RawRecord
    → NormalizedOpportunityInput
    → Opportunity
    → Option OpportunityVersion
    → VersionDb
    → Versioned
keep_or_add c raw n o (some v) db = keep_version c raw n o v db
keep_or_add c raw n o none db = add_version c raw n o db

unfoldable pub upsert_known :
    Clocks → RawRecord → NormalizedOpportunityInput → Opportunity → VersionDb → Versioned
upsert_known c raw n o db = keep_or_add c raw n o (unchanged n (current_version o db)) db

-- The opportunity of the key, which is added where it is new.
unfoldable pub upsert_found :
    Clocks → RawRecord → NormalizedOpportunityInput → Option Opportunity → VersionDb → Versioned
upsert_found c raw n (some o) db = upsert_known c raw n o db
upsert_found c raw n none db =
    let o = new_opportunity db.next_id n in
    upsert_known c raw n o
      (record db { opportunities = o ∷ db.opportunities; next_id = suc db.next_id })

abbrev pub upsert_unprocessed :
    Clocks → RawRecord → NormalizedOpportunityInput → Option ℕ → VersionDb → Versioned
upsert_unprocessed c raw n (some id) db = processed c raw (find (has_version_id id) db.versions) db
upsert_unprocessed c raw n none db =
    upsert_found c raw n (find (has_canonical_key n.canonical_key) db.opportunities) db

abbrev pub upsert_raw :
    Clocks → NormalizedOpportunityInput → Option RawRecord → VersionDb → Versioned
upsert_raw c n none db = (err missing_row, db)
upsert_raw c n (some raw) db =
    if not (raw.source_id == n.source_id) || not (str_eq raw.source_record_id n.source_record_id)
    then (err identity_mismatch, db)
    else upsert_unprocessed c raw n raw.normalized_version_id db

-- The call on the raw record of a key; a record without one is not persisted.
unfoldable pub upsert_opportunity_version :
    Clocks → Option ℕ → NormalizedOpportunityInput → VersionDb → Versioned
upsert_opportunity_version c none n db = (err unpersisted, db)
upsert_opportunity_version c (some id) n db = upsert_raw c n (find (has_raw_id id) db.raws) db
