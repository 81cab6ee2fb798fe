-- ===== src/Delta/Engine/Documents.antt =====
-- The document changes of `compute_delta` in apps/api/app/delta/engine.py, and the delta.
pub mod Proven
use procure_delta.Prelude.{
  ℕ, String, Bool, true, false, not, ◌&&◌, ◌||◌, Option, none, some, List, [], ◌∷◌, ◌++◌, ◌==◌, leb,
  str_eq, if◌then◌else◌, is_some,
}
use procure_delta.Prelude.Actions.{Result, ok, err}
use procure_delta.Delta.Impact.{
  Change, Kind, added, removed, replaced, attachments, ImpactAssessment, classify_impact,
}
use procure_delta.Delta.Engine.{
  Attachment, DeltaSnapshot, Evidence, attachment, insert_once, same_option, Claims, Proofs, claims,
  DeltaError, other_opportunity, not_ascending, other_provenance, bad_deadline, FieldChange,
  field_changes,
}

-- `{item.source_url: item for item in attachments}`, read at a URL: the last item wins.
abbrev pub manifest_at : String → List Attachment → Option Attachment
manifest_at url [] = none
manifest_at url (item ∷ items) =
    let later = manifest_at url items in
    if is_some later then later else if str_eq item.source_url url then some item else none

-- `sorted(old_manifest.keys() | new_manifest.keys())`
abbrev pub manifest_urls : List Attachment → List String
manifest_urls [] = []
manifest_urls (item ∷ items) = insert_once item.source_url (manifest_urls items)

pub record AttachmentValue : Type 0 where
  pub source_url : String
  pub filename : String
  pub sha256 : Option String

abbrev pub attachment_value : Attachment → AttachmentValue
attachment_value item = record {
  source_url = item.source_url;
  filename = item.filename;
  sha256 = item.sha256;
}

abbrev pub attachment_evidence : Option Attachment → List Evidence
attachment_evidence none = []
attachment_evidence (some item) =
    attachment item.id item.opportunity_version_id item.source_url item.sha256 ∷ []

abbrev pub value_or_none : Option Attachment → Option AttachmentValue
value_or_none none = none
value_or_none (some item) = some (attachment_value item)

pub record DocumentChange : Type 0 where
  pub kind : Kind
  pub before : Option AttachmentValue
  pub after : Option AttachmentValue
  pub before_evidence : List Evidence
  pub after_evidence : List Evidence

abbrev pub document_change : Kind → Option Attachment → Option Attachment → DocumentChange
document_change kind old new = record {
  kind = kind;
  before = value_or_none old;
  after = value_or_none new;
  before_evidence = attachment_evidence old;
  after_evidence = attachment_evidence new;
}

abbrev pub same_value : AttachmentValue → AttachmentValue → Bool
same_value a b =
    str_eq a.source_url b.source_url
    && str_eq a.filename b.filename
    && same_option str_eq a.sha256 b.sha256

-- The change of one URL. An incomplete manifest proves no absence, and a failed download no
-- replacement.
abbrev pub change_at : Bool → Bool → Option Attachment → Option Attachment → Option DocumentChange
change_at before_complete after_complete none none = none
change_at before_complete after_complete none (some new) =
    if before_complete then some (document_change added none (some new)) else none
change_at before_complete after_complete (some old) none =
    if after_complete then some (document_change removed (some old) none) else none
change_at before_complete after_complete (some old) (some new) =
    if not (is_some old.sha256)
      || not (is_some new.sha256)
      || same_value (attachment_value old) (attachment_value new)
    then none
    else some (document_change replaced (some old) (some new))

abbrev pub append_change : Option DocumentChange → List DocumentChange → List DocumentChange
append_change none changes = changes
append_change (some change) changes = change ∷ changes

-- The loop over the URLs.
unfoldable pub documents_at : DeltaSnapshot → DeltaSnapshot → List String → List DocumentChange
documents_at before after [] = []
documents_at before after (url ∷ urls) =
    append_change
      (change_at before.attachment_manifest_complete after.attachment_manifest_complete
        (manifest_at url before.attachments) (manifest_at url after.attachments))
      (documents_at before after urls)

unfoldable pub document_changes : DeltaSnapshot → DeltaSnapshot → List DocumentChange
document_changes before after =
    documents_at before after (manifest_urls (before.attachments ++ after.attachments))

abbrev pub document_kinds : List DocumentChange → List Kind
document_kinds [] = []
document_kinds (d ∷ ds) = d.kind ∷ document_kinds ds

abbrev pub changes_of : List FieldChange → List Change
changes_of [] = []
changes_of (f ∷ fs) = f.change ∷ changes_of fs

-- The columns of the row that the engine fills in.
pub record OpportunityDelta : Type 0 where
  pub opportunity_id : ℕ
  pub from_version_id : ℕ
  pub to_version_id : ℕ
  pub field_changes : List FieldChange
  pub document_changes : List DocumentChange
  pub impact : ImpactAssessment

abbrev pub delta_row :
    DeltaSnapshot → DeltaSnapshot → List FieldChange → List DocumentChange → OpportunityDelta
delta_row before after fields documents = record {
  opportunity_id = after.version.opportunity_id;
  from_version_id = before.version.id;
  to_version_id = after.version.id;
  field_changes = fields;
  document_changes = documents;
  impact = classify_impact (changes_of fields ++ (attachments (document_kinds documents) ∷ []));
}

abbrev pub compare_claims :
    DeltaSnapshot
    → DeltaSnapshot
    → Option (Claims × Proofs)
    → Option (Claims × Proofs)
    → Result DeltaError OpportunityDelta
compare_claims before after none new = err bad_deadline
compare_claims before after (some old) none = err bad_deadline
compare_claims before after (some old) (some new) =
    ok (delta_row before after (field_changes old new) (document_changes before after))

unfoldable pub compute_delta :
    (String → Option String) → DeltaSnapshot → DeltaSnapshot → Result DeltaError OpportunityDelta
compute_delta utc before after =
    if not (before.version.opportunity_id == after.version.opportunity_id)
    then err other_opportunity
    else if leb after.version.version_number before.version.version_number
    then err not_ascending
    else if not (before.raw.id == before.version.raw_record_id)
        || not (after.raw.id == after.version.raw_record_id)
    then err other_provenance
    else compare_claims before after (claims utc before) (claims utc after)
