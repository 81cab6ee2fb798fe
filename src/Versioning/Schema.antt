-- ===== src/Versioning/Schema.antt =====
-- The tables of apps/api/app/models/schema.py that the versioning of opportunities reads and writes,
-- and the normalized input of apps/api/app/services/normalize.py. A JSON value is a text, an amount a
-- whole number of its smallest unit, and a time a number of microseconds.
use procure_delta.Prelude.{ℕ, String, Bool, Option, List, ◌==◌, str_eq}
use procure_delta.Prelude.Int.{ℤ}
use procure_delta.Prelude.Actions.{Result}

pub data NormalizationStatus : Type 0 where
  pending normalized failed : NormalizationStatus

pub record RawRecord : Type 0 where
  pub id : ℕ
  pub source_id : ℕ
  pub source_record_id : String
  pub fetched_at : ℕ
  pub source_updated_at : Option ℕ
  pub payload_json : String
  pub payload_sha256 : String
  pub http_etag : Option String
  pub http_last_modified : Option String
  pub normalization_status : NormalizationStatus
  pub normalized_at : Option ℕ
  pub normalized_version_id : Option ℕ

-- What `_apply_current` copies to the opportunity.
pub record CurrentValue : Type 0 where
  pub title : String
  pub buyer_name : String
  pub procurement_type : Option String
  pub lifecycle_stage : String
  pub estimated_amount : Option ℤ
  pub currency : String
  pub published_at : Option ℕ
  pub closes_at : Option ℕ
  pub status : Option String

pub record NormalizedOpportunityInput : Type 0 where
  pub source_id : ℕ
  pub source_record_id : String
  pub canonical_key : String
  pub value : CurrentValue
  pub effective_at : ℕ
  pub normalized_json : String
  pub normalized_sha256 : String

pub record Opportunity : Type 0 where
  pub id : ℕ
  pub canonical_key : String
  pub value : CurrentValue
  pub current_version_id : Option ℕ
  pub current_effective_at : Option ℕ

pub data TransitionKind : Type 0 where
  initial current historical : TransitionKind

pub record OpportunityVersion : Type 0 where
  pub id : ℕ
  pub opportunity_id : ℕ
  pub raw_record_id : ℕ
  pub version_number : ℕ
  pub source_record_id : String
  pub effective_at : ℕ
  pub normalized_json : String
  pub normalized_sha256 : String
  pub extraction_version : String
  pub previous_current_version_id : Option ℕ
  pub transition_kind : TransitionKind
  pub transition_at : Option ℕ

pub data LinkStatus : Type 0 where
  active retracted : LinkStatus

pub record LifecycleLink : Type 0 where
  pub id : ℕ
  pub parent_opportunity_id : ℕ
  pub child_opportunity_id : ℕ
  pub link_status : LinkStatus
  pub retracted_at : Option ℕ

-- The tables, each with its newest row first, and the next primary key.
pub record VersionDb : Type 0 where
  pub raws : List RawRecord
  pub opportunities : List Opportunity
  pub versions : List OpportunityVersion
  pub links : List LifecycleLink
  pub next_id : ℕ

pub data VersioningError : Type 0 where
  -- the two checks of the input
  unpersisted identity_mismatch : VersioningError
  -- a row that a key names is not there
  missing_row : VersioningError
  -- the database gave no time for a retraction
  no_timestamp : VersioningError

pub record VersioningOutcome : Type 0 where
  pub created : Bool
  pub opportunity_id : ℕ
  pub version_id : ℕ
  pub version_number : ℕ

-- The readings of the clocks that one call makes: `datetime.now`, and the two of the database.
pub record Clocks : Type 0 where
  pub now : ℕ
  pub decision_at : Option ℕ
  pub observed_at : Option ℕ

abbrev pub has_raw_id : ℕ → RawRecord → Bool
has_raw_id id r = r.id == id

abbrev pub has_canonical_key : String → Opportunity → Bool
has_canonical_key key o = str_eq o.canonical_key key

abbrev pub has_version_id : ℕ → OpportunityVersion → Bool
has_version_id id v = v.id == id

abbrev pub Versioned : Type 0
Versioned = Result VersioningError VersioningOutcome × VersionDb
