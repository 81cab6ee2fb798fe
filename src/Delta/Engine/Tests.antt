-- ===== src/Delta/Engine/Tests.antt =====
-- Two snapshots of one opportunity, through apps/api/app/delta/engine.py.
use procure_delta.Prelude.{
  ℕ, ◌*◌, ◌≡◌, refl, String, true, false, Option, none, some, List, [], ◌∷◌,
}
use procure_delta.Prelude.Actions.{ok, err}
use procure_delta.Prelude.Int.{pos}
use procure_delta.Versioning.Schema.{RawRecord, OpportunityVersion, pending, current}
use procure_delta.Delta.Impact.{regions, high, added, all_reasons, change_reasons, classify_impact}
use procure_delta.Delta.Engine.{
  Attachment, Sources, DeltaSnapshot, raw_evidence, budget_claim, claims, field_changes,
  not_ascending,
}
use procure_delta.Delta.Engine.Documents.{
  OpportunityDelta, documents_at, document_changes, document_change, compute_delta,
}
use procure_delta.Delta.Engine.Documents.Proven.{IsDelta, compute_delta-IsDelta}

abbrev raw_row : ℕ → RawRecord
raw_row id = record {
  id = id;
  source_id = 0;
  source_record_id = "r";
  fetched_at = 0;
  source_updated_at = none;
  payload_json = "p";
  payload_sha256 = "p";
  http_etag = none;
  http_last_modified = none;
  normalization_status = pending;
  normalized_at = none;
  normalized_version_id = none;
}

abbrev version_row : ℕ → ℕ → ℕ → OpportunityVersion
version_row id raw number = record {
  id = id;
  opportunity_id = 7;
  raw_record_id = raw;
  version_number = number;
  source_record_id = "r";
  effective_at = 0;
  normalized_json = "n";
  normalized_sha256 = "n";
  extraction_version = "normalizer-v1";
  previous_current_version_id = none;
  transition_kind = current;
  transition_at = none;
}

abbrev absent : {A : Type 0} → Sources A
absent = record { normalized = none; in_payload = false; extracted = none; items = [] }

abbrev upstream : {A : Type 0} → A → Sources A
upstream a = record { normalized = some a; in_payload = true; extracted = none; items = [] }

abbrev file : Attachment
file = record {
  id = 9;
  opportunity_version_id = 2;
  source_url = "u";
  filename = "f";
  sha256 = some "s";
}

abbrev snapshot : ℕ → ℕ → ℕ → List String → List Attachment → DeltaSnapshot
snapshot id number amount places files = record {
  version = version_row id (id * 10) number;
  raw = raw_row (id * 10);
  estimated_amount = upstream (pos amount);
  currency = absent;
  closes_at = absent;
  regions = upstream places;
  required_certifications = absent;
  required_capabilities = absent;
  participation_constraints = absent;
  contract_period = absent;
  has_extraction = false;
  attachments = files;
  attachment_manifest_complete = true;
}

abbrev utc : String → Option String
utc s = some s

abbrev older : DeltaSnapshot
older = snapshot 1 1 100 ("Seoul" ∷ "Busan" ∷ "Seoul" ∷ []) []

abbrev newer : DeltaSnapshot
newer = snapshot 2 2 100 ("Seoul" ∷ []) (file ∷ [])

abbrev change_found : OpportunityDelta
change_found = record {
  opportunity_id = 7;
  from_version_id = 1;
  to_version_id = 2;
  field_changes =
      record {
        change = regions (some ("Busan" ∷ "Seoul" ∷ [])) (some ("Seoul" ∷ []));
        before_evidence = raw_evidence 10 0 "r" "p" "regions" ∷ [];
        after_evidence = raw_evidence 20 0 "r" "p" "regions" ∷ [];
      }
      ∷ [];
  document_changes = document_change added none (some file) ∷ [];
  impact = record {
    level = some high;
    reason_codes = "attachment_added" ∷ "region_restriction_changed" ∷ [];
  };
}

found_test : compute_delta utc older newer ≡ ok change_found
unfolding compute_delta claims budget_claim field_changes document_changes documents_at
    classify_impact all_reasons change_reasons
found_test = refl

order_test : compute_delta utc newer older ≡ err not_ascending
unfolding compute_delta
order_test = refl

compute_delta-IsDelta_example : IsDelta utc older newer change_found
compute_delta-IsDelta_example = compute_delta-IsDelta utc older newer change_found found_test
