-- ===== src/Delta/Engine/Documents/Proven.antt =====
-- What the deltas of `compute_delta` in apps/api/app/delta/engine.py rest on.
use procure_delta.Prelude.{
  arith, ◌≡◌, ◌≢◌, ◌<◌, refl, inl, inr, String, Bool, true, false, not, ◌||◌, Option, none, some,
  List, [], ◌∷◌, ◌==◌, leb, str_eq, is_some, Bool-cases, All, ==→eq, eq_refl,
}
use procure_delta.Prelude.Actions.{ok}
use procure_delta.Delta.Impact.{added, removed, replaced}
use procure_delta.Delta.Engine.{
  Attachment, DeltaSnapshot, Claims, Proofs, claims, field_changes, same_option,
}
use procure_delta.Delta.Engine.RoundTrip.{apply_changes, apply-field_changes}
use procure_delta.Delta.Engine.Documents.{
  manifest_at, attachment_value, AttachmentValue, DocumentChange, document_change, same_value,
  change_at, append_change, documents_at, document_changes, OpportunityDelta, compare_claims,
  compute_delta,
}

-- A document is added where a complete older manifest lacks it, removed where a complete newer one
-- does, and replaced where both contents are known and the values differ.
pub data IsProven (before after : DeltaSnapshot) (d : DocumentChange) : Type 0 where
  proven_added :
      (url : String) (new : Attachment)
      → before.attachment_manifest_complete ≡ true
      → manifest_at url before.attachments ≡ none
      → manifest_at url after.attachments ≡ some new
      → d ≡ document_change added none (some new)
      → IsProven before after d
  proven_removed :
      (url : String) (old : Attachment)
      → after.attachment_manifest_complete ≡ true
      → manifest_at url before.attachments ≡ some old
      → manifest_at url after.attachments ≡ none
      → d ≡ document_change removed (some old) none
      → IsProven before after d
  proven_replaced :
      (url : String) (old new : Attachment)
      → manifest_at url before.attachments ≡ some old
      → manifest_at url after.attachments ≡ some new
      → is_some old.sha256 ≡ true
      → is_some new.sha256 ≡ true
      → attachment_value old ≢ attachment_value new
      → d ≡ document_change replaced (some old) (some new)
      → IsProven before after d

same_option_refl : (a : Option String) → same_option str_eq a a ≡ true
same_option_refl none = refl
same_option_refl (some a) = eq_refl a

same_value_refl : (a : AttachmentValue) → same_value a a ≡ true
same_value_refl a = rw (eq_refl a.source_url, eq_refl a.filename, same_option_refl a.sha256) refl

differ : (a b : AttachmentValue) → same_value a b ≡ false → a ≢ b
differ a b e same =
    let bad : same_value a a ≡ false = rw (← same) at e in let good = same_value_refl a in cc

or3_false : (a b c : Bool) → (not a || not b || c) ≡ false → (a ≡ true) × (b ≡ true) × (c ≡ false)
or3_false a b c e = ground arith

module _ (before after : DeltaSnapshot) (url : String) where
  change_at-IsProven :
      (bc ac : Bool) (old new : Option Attachment) (d : DocumentChange)
      → before.attachment_manifest_complete ≡ bc
      → after.attachment_manifest_complete ≡ ac
      → manifest_at url before.attachments ≡ old
      → manifest_at url after.attachments ≡ new
      → change_at bc ac old new ≡ some d
      → IsProven before after d
  change_at-IsProven bc ac none none d b a o n e = cc
  change_at-IsProven true ac none (some new) d b a o n e = proven_added url new b o n (cc)
  change_at-IsProven false ac none (some new) d b a o n e = cc
  change_at-IsProven bc true (some old) none d b a o n e = proven_removed url old a o n (cc)
  change_at-IsProven bc false (some old) none d b a o n e = cc
  change_at-IsProven bc ac (some old) (some new) d b a o n e =
      elim (Bool-cases (
        not (is_some old.sha256)
        || not (is_some new.sha256)
        || same_value (attachment_value old) (attachment_value new))) [
          | inl unproven ↦ let bad = rw unproven at e in cc
          | inr different ↦
              let (old_known, new_known, values) =
                or3_false (is_some old.sha256) (is_some new.sha256)
                  (same_value (attachment_value old) (attachment_value new)) different in
              let e' : some (document_change replaced (some old) (some new)) ≡ some d =
                rw different at e in
              proven_replaced url old new o n old_known new_known
                (differ (attachment_value old) (attachment_value new) values) (cc)
        ]

append-All :
    (P : DocumentChange → Type 0) (c : Option DocumentChange) (cs : List DocumentChange)
    → ((d : DocumentChange) → c ≡ some d → P d)
    → All P cs
    → All P (append_change c cs)
append-All P none cs h hs = hs
append-All P (some d) cs h hs = (h d refl, hs)

documents_at-IsProven :
    (before after : DeltaSnapshot) (urls : List String)
    → All (IsProven before after) (documents_at before after urls)
unfolding documents_at
documents_at-IsProven before after [] = tt
documents_at-IsProven before after (url ∷ urls) =
    append-All (IsProven before after)
      (change_at before.attachment_manifest_complete after.attachment_manifest_complete
        (manifest_at url before.attachments) (manifest_at url after.attachments))
      (documents_at before after urls)
      (λ d e.
        change_at-IsProven before after url before.attachment_manifest_complete
          after.attachment_manifest_complete (manifest_at url before.attachments)
          (manifest_at url after.attachments) d refl refl refl refl e)
      (documents_at-IsProven before after urls)

-- The delta of two versions.
pub record IsDelta (utc : String → Option String) (before after : DeltaSnapshot)
    (delta : OpportunityDelta) : Type 0 where
  pub same_opportunity : before.version.opportunity_id ≡ after.version.opportunity_id
  pub ascending : before.version.version_number < after.version.version_number
  pub old_claims : Claims × Proofs
  pub old_read : claims utc before ≡ some old_claims
  pub new_claims : Claims × Proofs
  pub new_read : claims utc after ≡ some new_claims
  pub fields : apply_changes delta.field_changes old_claims.0 ≡ new_claims.0
  pub documents : All (IsProven before after) delta.document_changes

compare_claims-IsDelta :
    (utc : String → Option String) (before after : DeltaSnapshot)
    (old new : Option (Claims × Proofs)) (delta : OpportunityDelta)
    → before.version.opportunity_id ≡ after.version.opportunity_id
    → before.version.version_number < after.version.version_number
    → claims utc before ≡ old
    → claims utc after ≡ new
    → compare_claims before after old new ≡ ok delta
    → IsDelta utc before after delta
unfolding document_changes
compare_claims-IsDelta utc before after none new delta same lt o n e = cc
compare_claims-IsDelta utc before after (some old) none delta same lt o n e = cc
compare_claims-IsDelta utc before after (some (b, be)) (some (a, ae)) delta same lt o n e =
    let fields : field_changes (b, be) (a, ae) ≡ delta.field_changes = cc in
    let documents : document_changes before after ≡ delta.document_changes = cc in
    record {
      same_opportunity = same;
      ascending = lt;
      old_claims = (b, be);
      old_read = o;
      new_claims = (a, ae);
      new_read = n;
      fields = rw (← fields) (apply-field_changes b a be ae);
      documents = rw (← documents) (documents_at-IsProven before after _);
    }

-- A delta that is computed is one between two versions of the same opportunity, the second with the
-- higher number. Its field changes, applied to the canonical claims of the first, give those of the
-- second; and each document change is proven by the two manifests.
pub compute_delta-IsDelta :
    (utc : String → Option String) (before after : DeltaSnapshot) (delta : OpportunityDelta)
    → compute_delta utc before after ≡ ok delta
    → IsDelta utc before after delta
unfolding compute_delta
compute_delta-IsDelta utc before after delta e =
    elim (Bool-cases (before.version.opportunity_id == after.version.opportunity_id)) [
      | inr other ↦ let bad = rw other at e in cc
      | inl same ↦
          elim (Bool-cases (leb after.version.version_number before.version.version_number)) [
            | inl down ↦ let bad = rw (same, down) at e in cc
            | inr up ↦
                elim (Bool-cases (
                  not (before.raw.id == before.version.raw_record_id)
                  || not (after.raw.id == after.version.raw_record_id))) [
                    | inl foreign ↦ let bad = rw (same, up, foreign) at e in cc
                    | inr own ↦
                        compare_claims-IsDelta utc before after (claims utc before)
                          (claims utc after) delta
                          (==→eq before.version.opportunity_id after.version.opportunity_id same)
                          (ground arith) refl refl (rw (same, up, own) at e)
                  ]
          ]
    ]
