-- ===== src/Versioning/Upsert/Invariant.antt =====
-- Every call of apps/api/app/repositories/opportunities.py and apps/api/app/services/ingest.py that
-- returns keeps the tables' invariant.
use procure_delta.Prelude.{
  arith, ℕ, suc, ◌<◌, ◌≡◌, refl, ◌⊎◌, inl, inr, String, false, not, ◌||◌, Option, none, some, List,
  [], ◌∷◌, ◌==◌, str_eq, find, find-All, All, All-imp, Bool-cases, Option-cases,
}
use procure_delta.Prelude.Actions.{ok}
use procure_delta.Versioning.Schema.{
  RawRecord, NormalizedOpportunityInput, Opportunity, OpportunityVersion, VersionDb, Clocks,
  has_raw_id, has_canonical_key, has_version_id, VersioningOutcome,
}
use procure_delta.Versioning.Upsert.{
  processed, new_opportunity, upsert_found, upsert_unprocessed, upsert_raw,
  upsert_opportunity_version, RawSourceRecord, ingest_raw_record, same_payload,
}
use procure_delta.Versioning.Upsert.Numbering.{HasCurrent, ids, IsValid, IsOpen, put_raw-IsValid}
use procure_delta.Versioning.Upsert.Preserved.{upsert_known-IsValid}

pub known-IsOpen :
    (n : NormalizedOpportunityInput) (o : Opportunity) (db : VersionDb)
    → IsValid db
    → find (has_canonical_key n.canonical_key) db.opportunities ≡ some o
    → IsOpen n o db
known-IsOpen n o db v found = record {
  numbered = v.numbered;
  version_ids = v.version_ids;
  opportunity_ids = v.opportunity_ids;
  apart = v.apart;
  others =
      All-imp (HasCurrent db.versions) (λ x. (x ≡ o) ⊎ HasCurrent db.versions x) (λ x p. inr p)
        db.opportunities v.currents;
  own = inl (
      find-All (HasCurrent db.versions) (has_canonical_key n.canonical_key) db.opportunities o
        v.currents found);
  known =
      find-All (λ x. x.id < db.next_id) (has_canonical_key n.canonical_key) db.opportunities o
        v.opportunity_ids found;
}

ids_below :
    (next : ℕ) (os : List Opportunity)
    → All (λ o. o.id < next) os
    → All (λ j. (j == next) ≡ false) (ids os)
ids_below next [] h = tt
ids_below next (o ∷ os) h = let first = h.0 in (ground arith, ids_below next os h.1)

-- The tables with a new opportunity.
abbrev pub with_new : NormalizedOpportunityInput → VersionDb → VersionDb
with_new n db = record db {
  opportunities = new_opportunity db.next_id n ∷ db.opportunities;
  next_id = suc db.next_id;
}

pub new-IsOpen :
    (n : NormalizedOpportunityInput) (db : VersionDb)
    → IsValid db
    → IsOpen n (new_opportunity db.next_id n) (with_new n db)
new-IsOpen n db v = record {
  numbered = v.numbered;
  version_ids =
      All-imp (λ x. x.id < db.next_id) (λ x. x.id < suc db.next_id) (λ x p. omega arith) db.versions
        v.version_ids;
  opportunity_ids = (
    omega arith,
    All-imp (λ x. x.id < db.next_id) (λ x. x.id < suc db.next_id) (λ x p. omega arith)
        db.opportunities v.opportunity_ids,
  );
  apart = (ids_below db.next_id db.opportunities v.opportunity_ids, v.apart);
  others = (
    inl refl,
    All-imp (HasCurrent db.versions)
        (λ x. (x ≡ new_opportunity db.next_id n) ⊎ HasCurrent db.versions x) (λ x p. inr p)
        db.opportunities v.currents,
  );
  own = inr (refl, refl);
  known = omega arith;
}

module _ (c : Clocks) (raw : RawRecord) (n : NormalizedOpportunityInput) (db : VersionDb) where
  upsert_found-IsValid :
      {r : VersioningOutcome}
      → IsValid db
      → (upsert_found c raw n (find (has_canonical_key n.canonical_key) db.opportunities) db).0
        ≡ ok r
      → IsValid
          (upsert_found c raw n (find (has_canonical_key n.canonical_key) db.opportunities) db).1
  unfolding upsert_found
  upsert_found-IsValid v e =
      elim (Option-cases (find (has_canonical_key n.canonical_key) db.opportunities)) [
        | inl new ↦ rw new (
            upsert_known-IsValid c raw n (new_opportunity db.next_id n) (with_new n db)
              (new-IsOpen n db v) (rw new at e))
        | inr (o, found) ↦
            rw found
              (upsert_known-IsValid c raw n o db (known-IsOpen n o db v found) (rw found at e))
      ]

  processed-IsValid :
      (v : Option OpportunityVersion) → IsValid db → IsValid (processed c raw v db).1
  processed-IsValid none h = h
  processed-IsValid (some x) h = put_raw-IsValid c (some x.id) raw db h

  upsert_unprocessed-IsValid :
      (version : Option ℕ) {r : VersioningOutcome}
      → IsValid db
      → (upsert_unprocessed c raw n version db).0 ≡ ok r
      → IsValid (upsert_unprocessed c raw n version db).1
  upsert_unprocessed-IsValid (some id) v e =
      processed-IsValid (find (has_version_id id) db.versions) v
  upsert_unprocessed-IsValid none v e = upsert_found-IsValid v e

upsert_raw-IsValid :
    (c : Clocks) (n : NormalizedOpportunityInput) (raw : Option RawRecord) (db : VersionDb)
    {r : VersioningOutcome}
    → IsValid db
    → (upsert_raw c n raw db).0 ≡ ok r
    → IsValid (upsert_raw c n raw db).1
upsert_raw-IsValid c n none db v e = v
upsert_raw-IsValid c n (some raw) db v e =
    elim (Bool-cases (
      not (raw.source_id == n.source_id) || not (str_eq raw.source_record_id n.source_record_id))) [
        | inl differs ↦ rw differs v
        | inr same ↦
            rw same
              (upsert_unprocessed-IsValid c raw n db raw.normalized_version_id v (rw same at e))
      ]

pub upsert_opportunity_version-IsValid :
    (c : Clocks) (id : Option ℕ) (n : NormalizedOpportunityInput) (db : VersionDb)
    {r : VersioningOutcome}
    → IsValid db
    → (upsert_opportunity_version c id n db).0 ≡ ok r
    → IsValid (upsert_opportunity_version c id n db).1
unfolding upsert_opportunity_version
upsert_opportunity_version-IsValid c none n db v e = v
upsert_opportunity_version-IsValid c (some id) n db v e =
    upsert_raw-IsValid c n (find (has_raw_id id) db.raws) db v e

pub ingest_raw_record-IsValid :
    (now source : ℕ) (checksum : String) (r : RawSourceRecord) (db : VersionDb)
    → IsValid db
    → IsValid (ingest_raw_record now source checksum r db).1
unfolding ingest_raw_record
ingest_raw_record-IsValid now source checksum r db v =
    elim (Option-cases (find (same_payload source r.source_record_id checksum) db.raws)) [
      | inr (x, there) ↦ rw there v
      | inl new ↦ rw new (record {
        numbered = v.numbered;
        version_ids =
            All-imp (λ x. x.id < db.next_id) (λ x. x.id < suc db.next_id) (λ x p. omega arith)
              db.versions v.version_ids;
        opportunity_ids =
            All-imp (λ x. x.id < db.next_id) (λ x. x.id < suc db.next_id) (λ x p. omega arith)
              db.opportunities v.opportunity_ids;
        apart = v.apart;
        currents = v.currents;
      })
    ]
