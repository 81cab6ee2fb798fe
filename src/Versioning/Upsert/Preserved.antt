-- ===== src/Versioning/Upsert/Preserved.antt =====
-- The branches of `upsert_opportunity_version` in apps/api/app/repositories/opportunities.py keep the
-- invariant of the tables.
use mathlib.Core.Path.{subst}
use procure_delta.Prelude.{
  arith, suc, ◌<◌, ◌≡◌, refl, sym, ap, ◌∙◌, ◌⊎◌, inl, inr, Bool, true, false, Option, none, some,
  List, ◌∷◌, ==_refl, leb, find, All, All-imp, Option-cases,
}
use procure_delta.Prelude.Actions.{ok}
use procure_delta.Versioning.Schema.{
  RawRecord, NormalizedOpportunityInput, Opportunity, OpportunityVersion, VersionDb, Clocks,
  has_version_id, LifecycleLink, VersioningOutcome,
}
use procure_delta.Versioning.Upsert.{
  put_opportunity, current_version, unchanged, becomes_current, refresh_current, keep_version,
  latest_version_number, new_version, retract_replaced, promote, make_current, with_version,
  place_version, add_version, upsert_known,
}
use procure_delta.Versioning.Upsert.Numbering.{
  IsNumbered, HasCurrent, IsValid, IsOpen, latest_version_number-count, HasCurrent-cons,
  put_raw-IsValid, close, refresh_current-id,
}

module _ (c : Clocks) (raw : RawRecord) (n : NormalizedOpportunityInput) (o : Opportunity) where
  keep_version-IsValid :
      (v : OpportunityVersion) (db : VersionDb)
      → IsOpen n o db
      → HasCurrent db.versions o
      → IsValid (keep_version c raw n o v db).1
  unfolding keep_version
  keep_version-IsValid v db h (id, x, points, found, own) =
      let (same, same_version) = refresh_current-id n o in
      let db' = record db {
        opportunities = put_opportunity (refresh_current n o) db.opportunities;
      } in
      put_raw-IsValid c (some v.id) raw db' (
        close n o (refresh_current n o) db db' h same refl h.numbered h.version_ids (omega arith)
          (λ y q. q) (id, x, same_version ∙ points, found, own ∙ sym same))

  abbrev added : VersionDb → VersionDb
  added db = with_version c raw n o db

  added-IsNumbered : (db : VersionDb) → IsOpen n o db → IsNumbered (added db).versions
  added-IsNumbered db h =
      (ap suc (latest_version_number-count o.id db.versions h.numbered), h.numbered)

  added-ids :
      (db : VersionDb) → IsOpen n o db → All (λ v. v.id < suc db.next_id) (added db).versions
  added-ids db h = (
    omega arith,
    All-imp (λ v. v.id < db.next_id) (λ v. v.id < suc db.next_id) (λ v p. omega arith) db.versions
        h.version_ids,
  )

  HasCurrent-added :
      (db : VersionDb)
      → IsOpen n o db
      → (x : Opportunity) → HasCurrent db.versions x
      → HasCurrent (added db).versions x
  HasCurrent-added db h x =
      HasCurrent-cons (new_version c raw n o (suc (latest_version_number o.id db.versions)) db)
        db.versions x h.version_ids

  promoted-HasCurrent : (db : VersionDb) → HasCurrent (added db).versions (promote n db.next_id o)
  promoted-HasCurrent db =
      let v = new_version c raw n o (suc (latest_version_number o.id db.versions)) db in
      let first : find (has_version_id db.next_id) (v ∷ db.versions) ≡ some v =
        rw (==_refl db.next_id) refl in
      (db.next_id, v, refl, first, refl)

  make_current-IsValid :
      (db : VersionDb) (links : Option (List LifecycleLink)) {r : VersioningOutcome}
      → IsOpen n o db
      → (make_current c raw n o db.next_id
          (suc (latest_version_number o.id db.versions))
          links
          (added db)).0
        ≡ ok r
      → IsValid
          (make_current c raw n o db.next_id
            (suc (latest_version_number o.id db.versions))
            links
            (added db)).1
  make_current-IsValid db none h e = cc
  make_current-IsValid db (some links) h e =
      let o' = promote n db.next_id o in
      let db' = record (added db) {
        links = links;
        opportunities = put_opportunity o' db.opportunities;
      } in
      put_raw-IsValid c (some db.next_id) raw db' (
        close n o o' db db' h refl refl (added-IsNumbered db h) (added-ids db h) (omega arith)
          (HasCurrent-added db h) (promoted-HasCurrent db))

  -- Where the version is not the current one, the opportunity had one.
  stays-HasCurrent :
      (db : VersionDb)
      → IsOpen n o db
      → becomes_current n.effective_at o.current_effective_at ≡ false
      → HasCurrent db.versions o
  stays-HasCurrent db h e = elim h.own [
    | inl q ↦ q
    | inr (_, at) ↦
        let bad : leb n.effective_at n.effective_at ≡ false = rw at at e in absurd (ground arith)
  ]

  historical-IsValid :
      (db : VersionDb) → IsOpen n o db → HasCurrent db.versions o → IsValid (added db)
  historical-IsValid db h q = record {
    numbered = added-IsNumbered db h;
    version_ids = added-ids db h;
    opportunity_ids =
        All-imp (λ x. x.id < db.next_id) (λ x. x.id < suc db.next_id) (λ x p. omega arith)
          db.opportunities h.opportunity_ids;
    apart = h.apart;
    currents =
        All-imp (λ x. (x ≡ o) ⊎ HasCurrent db.versions x) (HasCurrent (added db).versions)
          (λ x p.
            HasCurrent-added db h x
              (elim p [ inl e ↦ subst (HasCurrent db.versions) (sym e) q | inr p' ↦ p' ]))
          db.opportunities h.others;
  }

  place_version-IsValid :
      (b : Bool) (db : VersionDb) {r : VersioningOutcome}
      → IsOpen n o db
      → becomes_current n.effective_at o.current_effective_at ≡ b
      → (place_version b c raw n o db).0 ≡ ok r
      → IsValid (place_version b c raw n o db).1
  place_version-IsValid true db h test e =
      make_current-IsValid db (retract_replaced o.current_version_id c.observed_at o.id db.links) h
        e
  place_version-IsValid false db h test e =
      put_raw-IsValid c (some db.next_id) raw (added db)
        (historical-IsValid db h (stays-HasCurrent db h test))

  add_version-IsValid :
      (db : VersionDb) {r : VersioningOutcome}
      → IsOpen n o db
      → (add_version c raw n o db).0 ≡ ok r
      → IsValid (add_version c raw n o db).1
  unfolding add_version
  add_version-IsValid db h e =
      place_version-IsValid (becomes_current n.effective_at o.current_effective_at) db h refl e

  -- A version that is kept is the current one.
  kept-HasCurrent :
      (db : VersionDb) (v : OpportunityVersion)
      → IsOpen n o db
      → unchanged n (current_version o db) ≡ some v
      → HasCurrent db.versions o
  kept-HasCurrent db v h e = elim h.own [
    | inl q ↦ q
    | inr (nothing, _) ↦ let bad = rw nothing at e in cc
  ]

  pub upsert_known-IsValid :
      (db : VersionDb) {r : VersioningOutcome}
      → IsOpen n o db
      → (upsert_known c raw n o db).0 ≡ ok r
      → IsValid (upsert_known c raw n o db).1
  unfolding upsert_known
  upsert_known-IsValid db h e = elim (Option-cases (unchanged n (current_version o db))) [
    | inl new ↦ rw new (add_version-IsValid db h (rw new at e))
    | inr (v, old) ↦ rw old (keep_version-IsValid v db h (kept-HasCurrent db v h old))
  ]
