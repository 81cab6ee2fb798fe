-- ===== src/Versioning/Upsert/Branches.antt =====
-- What each branch of `upsert_opportunity_version` in apps/api/app/repositories/opportunities.py does
-- to the summaries.
use Prim.Native.Nat.{max}
use mathlib.Core.Path.{subst}
use procure_delta.Prelude.{
  get_or, eq_iff, arith, suc, ◌≡◌, refl, sym, ap, ◌∙◌, ◌⊎◌, inl, inr, String, Bool, true, false,
  Option, none, some, List, ==_refl, str_eq, if◌then◌else◌, find, find-All, find-test, Bool-cases,
  Option-cases,
}
use procure_delta.Prelude.Actions.{ok}
use procure_delta.Versioning.Schema.{
  RawRecord, NormalizedOpportunityInput, Opportunity, OpportunityVersion, VersionDb, Clocks,
  has_canonical_key, LifecycleLink, VersioningOutcome,
}
use procure_delta.Versioning.Upsert.{
  put_opportunity, current_version, unchanged, becomes_current, refresh_current, keep_version,
  latest_version_number, new_version, retract_replaced, promote, make_current, with_version,
  place_version, add_version, upsert_known,
}
use procure_delta.Versioning.Upsert.Numbering.{HasCurrent, IsOpen}
use procure_delta.Versioning.Upsert.Refinement.{
  summary, summary_found, view, summary_of_input, summary_step, refresh_same, find-put_opportunity,
  summary-cons, becomes_current_lem, refresh_summary, current_digest,
}

module _ (c : Clocks) (raw : RawRecord) (n : NormalizedOpportunityInput) (o : Opportunity)
    (db : VersionDb) (h : IsOpen n o db)
    (found : find (has_canonical_key n.canonical_key) db.opportunities ≡ some o) where
  own_key : o.canonical_key ≡ n.canonical_key
  own_key =
      (eq_iff o.canonical_key n.canonical_key).0
        (find-test (has_canonical_key n.canonical_key) db.opportunities o found)

  -- After the opportunity is written.
  written-view :
      (o' : Opportunity) (vs : List OpportunityVersion) (key : String)
      → o'.id ≡ o.id
      → o'.canonical_key ≡ o.canonical_key
      → ((y : Opportunity) → HasCurrent db.versions y → summary vs y ≡ summary db.versions y)
      → summary_found vs (find (has_canonical_key key) (put_opportunity o' db.opportunities))
        ≡ (if str_eq n.canonical_key key then some (summary vs o') else view key db)
  written-view o' vs key same same_key old =
      rw
        (
          find-put_opportunity n.canonical_key key o o' db.opportunities h.apart found same
              same_key,
          own_key,
        )
        (elim (Bool-cases (str_eq n.canonical_key key)) [
          | inl e ↦ rw e refl
          | inr e ↦ elim (Option-cases (find (has_canonical_key key) db.opportunities)) [
            | inl nothing ↦ rw (e, nothing) refl
            | inr (y, there) ↦
                rw (e, there)
                  (ap some
                    (elim (find-All (λ x. (x ≡ o) ⊎ HasCurrent db.versions x)
                      (has_canonical_key key) db.opportunities y h.others there) [
                        | inr q ↦ old y q
                        | inl this ↦
                            let own : str_eq n.canonical_key key ≡ true =
                              rw (← own_key, ← this)
                                (find-test (has_canonical_key key) db.opportunities y there) in
                            let bad : true ≡ false = sym own ∙ e in cc
                      ]))
          ]
        ])

  promoted-view :
      (links : List LifecycleLink) (key : String)
      → view key
          (make_current c raw n o db.next_id
            (suc (latest_version_number o.id db.versions))
            (some links)
            (with_version c raw n o db)).1
        ≡ (if str_eq n.canonical_key key then some (summary_of_input n) else view key db)
  promoted-view links key =
      let vs = (with_version c raw n o db).versions in
      let o' = promote n db.next_id o in
      let now : summary vs o' ≡ summary_of_input n = rw (==_refl db.next_id) refl in
      subst
        (λ z.
          summary_found vs (find (has_canonical_key key) (put_opportunity o' db.opportunities))
          ≡ (if str_eq n.canonical_key key then some z else view key db))
        now
        (written-view o' vs key refl refl (λ y q.
          summary-cons (new_version c raw n o (suc (latest_version_number o.id db.versions)) db)
            db.versions y h.version_ids q))

  kept-view :
      (v : OpportunityVersion) (key : String)
      → view key (keep_version c raw n o v db).1 ≡ (
          if str_eq n.canonical_key key
          then some (record (summary db.versions o) {
            effective_at = max (get_or 0 o.current_effective_at) n.effective_at;
          })
          else view key db)
  unfolding keep_version
  kept-view v key =
      subst
        (λ z.
          summary_found db.versions
            (find (has_canonical_key key) (put_opportunity (refresh_current n o) db.opportunities))
          ≡ (if str_eq n.canonical_key key then some z else view key db))
        (refresh_summary n db.versions o)
        (written-view (refresh_current n o) db.versions key (refresh_same n o).0
          (refresh_same n o).1 (λ y q. refl))

  -- A version that is not the current one leaves each summary as it was.
  historical-view :
      (key : String) → HasCurrent db.versions o → view key (with_version c raw n o db) ≡ view key db
  historical-view key q = elim (Option-cases (find (has_canonical_key key) db.opportunities)) [
    | inl nothing ↦ rw nothing refl
    | inr (y, there) ↦ rw there (
        ap some (
          summary-cons (new_version c raw n o (suc (latest_version_number o.id db.versions)) db)
            db.versions y h.version_ids
            (elim (find-All (λ x. (x ≡ o) ⊎ HasCurrent db.versions x) (has_canonical_key key)
              db.opportunities y h.others there) [
                | inr p ↦ p
                | inl this ↦ subst (HasCurrent db.versions) (sym this) q
              ])))
  ]

  found-view : view n.canonical_key db ≡ some (summary db.versions o)
  found-view = rw found refl

  make_current-view :
      (links : Option (List LifecycleLink)) (key : String) {r : VersioningOutcome}
      → (make_current c raw n o db.next_id
          (suc (latest_version_number o.id db.versions))
          links
          (with_version c raw n o db)).0
        ≡ ok r
      → view key
          (make_current c raw n o db.next_id
            (suc (latest_version_number o.id db.versions))
            links
            (with_version c raw n o db)).1
        ≡ (if str_eq n.canonical_key key then some (summary_of_input n) else view key db)
  make_current-view none key e = cc
  make_current-view (some links) key e = promoted-view links key

  same_view :
      (key : String)
      → (if str_eq n.canonical_key key then some (summary db.versions o) else view key db)
        ≡ view key db
  same_view key = elim (Bool-cases (str_eq n.canonical_key key)) [
    | inr e ↦ rw e refl
    | inl e ↦
        let k : n.canonical_key ≡ key = (eq_iff n.canonical_key key).0 e in
        rw e (sym (subst (λ z. view z db ≡ some (summary db.versions o)) k found-view))
  ]

  -- A new version of an opportunity that has one.
  place_version-view :
      (b : Bool) (key : String) {r : VersioningOutcome}
      → HasCurrent db.versions o
      → (place_version b c raw n o db).0 ≡ ok r
      → view key (place_version b c raw n o db).1 ≡ (
          if str_eq n.canonical_key key
          then some (if b then summary_of_input n else summary db.versions o)
          else view key db)
  place_version-view true key q e =
      make_current-view (retract_replaced o.current_version_id c.observed_at o.id db.links) key e
  place_version-view false key q e = historical-view key q ∙ sym (same_view key)

  pub upsert_known-view :
      (key : String) {r : VersioningOutcome}
      → HasCurrent db.versions o
      → (upsert_known c raw n o db).0 ≡ ok r
      → view key (upsert_known c raw n o db).1 ≡ (
          if str_eq n.canonical_key key
          then some (summary_step n (some (summary db.versions o)))
          else view key db)
  unfolding upsert_known add_version
  upsert_known-view key q e =
      let (x, at, digest) = current_digest o db q in
      elim (Bool-cases (str_eq x.normalized_sha256 n.normalized_sha256)) [
        | inl same ↦
            let test : str_eq (summary db.versions o).digest n.normalized_sha256 ≡ true =
              rw digest same in
            rw (at, same, test) (kept-view x key)
        | inr other ↦
            let test : str_eq (summary db.versions o).digest n.normalized_sha256 ≡ false =
              rw digest other in
            rw (at, other, test, ← becomes_current_lem n.effective_at o.current_effective_at)
              (place_version-view (becomes_current n.effective_at o.current_effective_at) key q
                (rw (at, other) at e))
      ]

  pub upsert_new-view :
      (key : String) {r : VersioningOutcome}
      → o.current_version_id ≡ none
      → o.current_effective_at ≡ some n.effective_at
      → (upsert_known c raw n o db).0 ≡ ok r
      → view key (upsert_known c raw n o db).1
        ≡ (if str_eq n.canonical_key key then some (summary_of_input n) else view key db)
  unfolding upsert_known add_version
  upsert_new-view key nothing at e =
      let test : becomes_current n.effective_at o.current_effective_at ≡ true =
        rw at (ground arith) in
      let keep : unchanged n (current_version o db) ≡ none = rw nothing refl in
      let links : retract_replaced o.current_version_id c.observed_at o.id db.links
          ≡ some db.links =
        rw nothing refl in
      rw (keep, test, links) (promoted-view db.links key)
