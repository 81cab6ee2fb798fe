-- ===== src/Versioning/Upsert/Links.antt =====
-- The lifecycle links of an opportunity whose current version
-- apps/api/app/repositories/opportunities.py replaces.
use procure_delta.Prelude.{
  ℕ, ◌≡◌, ◌≢◌, refl, true, false, not, ◌||◌, ◌&&◌, ◌==◌, str_eq, Option, none, some, List, [], ◌∷◌,
  All, find, Bool-cases, inl, inr,
}
use procure_delta.Prelude.Actions.{ok}
use procure_delta.Versioning.Schema.{
  RawRecord, NormalizedOpportunityInput, Opportunity, VersionDb, VersioningOutcome, Clocks,
  LifecycleLink, has_raw_id, has_canonical_key,
}
use procure_delta.Versioning.Upsert.{
  touches, is_active, retract_links, retract_replaced, becomes_current, current_version, unchanged,
  make_current, add_version, upsert_known, upsert_found, upsert_unprocessed, upsert_raw,
  upsert_opportunity_version, with_version,
}

-- No active link has the opportunity at one of its ends.
abbrev pub Unlinked : ℕ → List LifecycleLink → Type 0
Unlinked id = All (λ l. (is_active l.link_status && touches id l) ≡ false)

retract_links-Unlinked :
    (id at : ℕ) (ls : List LifecycleLink) → Unlinked id (retract_links id at ls)
retract_links-Unlinked id at [] = tt
retract_links-Unlinked id at (l ∷ ls) = (
  elim (Bool-cases (is_active l.link_status && touches id l)) [
    | inl e ↦ rw e refl
    | inr e ↦ rw e (rw e refl)
  ],
  retract_links-Unlinked id at ls,
)

module _ (c : Clocks) (raw : RawRecord) (n : NormalizedOpportunityInput) (o : Opportunity) where
  make_current-Unlinked :
      (old at : Option ℕ) (db db' : VersionDb) (version number : ℕ) {r : VersioningOutcome}
      → old ≢ none
      → (make_current c raw n o version number (retract_replaced old at o.id db.links) db').0 ≡ ok r
      → Unlinked o.id
          (make_current c raw n o version number
            (retract_replaced old at o.id db.links)
            db').1.links
  make_current-Unlinked none at db db' version number h e = absurd (h refl)
  make_current-Unlinked (some x) none db db' version number h e = cc
  make_current-Unlinked (some x) (some at) db db' version number h e =
      retract_links-Unlinked o.id at db.links

  upsert_known-Unlinked :
      (db : VersionDb) {r : VersioningOutcome}
      → o.current_version_id ≢ none
      → becomes_current n.effective_at o.current_effective_at ≡ true
      → unchanged n (current_version o db) ≡ none
      → (upsert_known c raw n o db).0 ≡ ok r
      → Unlinked o.id (upsert_known c raw n o db).1.links
  unfolding upsert_known add_version
  upsert_known-Unlinked db h now new e =
      rw (new, now)
        (make_current-Unlinked o.current_version_id c.observed_at db (with_version c raw n o db)
          db.next_id _ h (rw (new, now) at e))

  upsert_unprocessed-Unlinked :
      (version : Option ℕ) (db : VersionDb) {r : VersioningOutcome}
      → version ≡ none
      → find (has_canonical_key n.canonical_key) db.opportunities ≡ some o
      → o.current_version_id ≢ none
      → becomes_current n.effective_at o.current_effective_at ≡ true
      → unchanged n (current_version o db) ≡ none
      → (upsert_unprocessed c raw n version db).0 ≡ ok r
      → Unlinked o.id (upsert_unprocessed c raw n version db).1.links
  unfolding upsert_found
  upsert_unprocessed-Unlinked none db fresh known h now new e =
      rw known (upsert_known-Unlinked db h now new (rw known at e))
  upsert_unprocessed-Unlinked (some x) db fresh known h now new e = cc

  upsert_raw-Unlinked :
      (db : VersionDb) {r : VersioningOutcome}
      → raw.normalized_version_id ≡ none
      → find (has_canonical_key n.canonical_key) db.opportunities ≡ some o
      → o.current_version_id ≢ none
      → becomes_current n.effective_at o.current_effective_at ≡ true
      → unchanged n (current_version o db) ≡ none
      → (upsert_raw c n (some raw) db).0 ≡ ok r
      → Unlinked o.id (upsert_raw c n (some raw) db).1.links
  upsert_raw-Unlinked db fresh known h now new e =
      elim (Bool-cases (
        not (raw.source_id == n.source_id)
        || not (str_eq raw.source_record_id n.source_record_id))) [
          | inl differs ↦ let bad = rw differs at e in cc
          | inr same ↦ rw same (
              upsert_unprocessed-Unlinked raw.normalized_version_id db fresh known h now new
                (rw same at e))
        ]

-- Where a call gives a known opportunity, which has a current version, another state that is not older
-- than it, and returns, then no lifecycle link at either end of which the opportunity stands is active.
pub upsert_opportunity_version-Unlinked :
    (c : Clocks) (id : ℕ) (raw : RawRecord) (n : NormalizedOpportunityInput) (o : Opportunity)
    (db : VersionDb) (r : VersioningOutcome)
    → find (has_raw_id id) db.raws ≡ some raw
    → raw.normalized_version_id ≡ none
    → find (has_canonical_key n.canonical_key) db.opportunities ≡ some o
    → o.current_version_id ≢ none
    → becomes_current n.effective_at o.current_effective_at ≡ true
    → unchanged n (current_version o db) ≡ none
    → (upsert_opportunity_version c (some id) n db).0 ≡ ok r
    → Unlinked o.id (upsert_opportunity_version c (some id) n db).1.links
unfolding upsert_opportunity_version
upsert_opportunity_version-Unlinked c id raw n o db r found fresh known h now new e =
    rw found (upsert_raw-Unlinked c raw n o db fresh known h now new (rw found at e))
