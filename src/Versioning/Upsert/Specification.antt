-- ===== src/Versioning/Upsert/Specification.antt =====
-- `upsert_opportunity_version` of apps/api/app/repositories/opportunities.py implements the step on
-- summaries.
use mathlib.Core.Path.{subst}
use procure_delta.Prelude.{
  eq_iff, eq_refl, arith, ℕ, ◌≤◌, ◌≡◌, refl, ◌∙◌, inl, inr, String, Bool, true, false, not, ◌||◌,
  Option, none, some, ◌==◌, str_eq, leb, if◌then◌else◌, find, find-All, Bool-cases, Option-cases,
}
use procure_delta.Prelude.Actions.{ok}
use procure_delta.Versioning.Schema.{
  RawRecord, NormalizedOpportunityInput, Opportunity, VersionDb, Clocks, has_raw_id,
  has_canonical_key, has_version_id, VersioningOutcome,
}
use procure_delta.Versioning.Upsert.{
  new_opportunity, upsert_found, upsert_unprocessed, upsert_raw, upsert_opportunity_version,
}
use procure_delta.Versioning.Upsert.Numbering.{HasCurrent, IsValid}
use procure_delta.Versioning.Upsert.Invariant.{with_new, known-IsOpen, new-IsOpen}
use procure_delta.Versioning.Upsert.Refinement.{
  Summary, summary, view, summary_of_input, summary_step,
}
use procure_delta.Versioning.Upsert.Branches.{upsert_known-view, upsert_new-view}

module _ (c : Clocks) (raw : RawRecord) (n : NormalizedOpportunityInput) (db : VersionDb) where
  abbrev searched : Option Opportunity
  searched = find (has_canonical_key n.canonical_key) db.opportunities

  new_key-view :
      (key : String)
      → searched ≡ none
      → (if str_eq n.canonical_key key then some (summary_of_input n) else view key (with_new n db))
        ≡ (if str_eq n.canonical_key key then some (summary_step n (view key db)) else view key db)
  new_key-view key nothing = elim (Bool-cases (str_eq n.canonical_key key)) [
    | inl e ↦
        let same : n.canonical_key ≡ key = (eq_iff n.canonical_key key).0 e in
        let empty : view key db ≡ none = subst (λ k. view k db ≡ none) same (rw nothing refl) in
        rw (e, empty) refl
    | inr e ↦ rw e refl
  ]

  known_key-view :
      (o : Opportunity) (key : String)
      → searched ≡ some o
      → (if str_eq n.canonical_key key
          then some (summary_step n (some (summary db.versions o)))
          else view key db)
        ≡ (if str_eq n.canonical_key key then some (summary_step n (view key db)) else view key db)
  known_key-view o key found = elim (Bool-cases (str_eq n.canonical_key key)) [
    | inl e ↦
        let same : n.canonical_key ≡ key = (eq_iff n.canonical_key key).0 e in
        let full : view key db ≡ some (summary db.versions o) =
          subst (λ k. view k db ≡ some (summary db.versions o)) same (rw found refl) in
        rw (e, full) refl
    | inr e ↦ rw e refl
  ]

  upsert_found-view :
      (key : String) {r : VersioningOutcome}
      → IsValid db
      → (upsert_found c raw n searched db).0 ≡ ok r
      → view key (upsert_found c raw n searched db).1
        ≡ (if str_eq n.canonical_key key then some (summary_step n (view key db)) else view key db)
  unfolding upsert_found
  upsert_found-view key v e = elim (Option-cases searched) [
    | inl nothing ↦ rw nothing (
        upsert_new-view c raw n (new_opportunity db.next_id n) (with_new n db) (new-IsOpen n db v)
          (rw (eq_refl n.canonical_key) refl) key refl refl (rw nothing at e)
        ∙ new_key-view key nothing)
    | inr (o, found) ↦ rw found (
        upsert_known-view c raw n o db (known-IsOpen n o db v found) found key
          (find-All (HasCurrent db.versions) (has_canonical_key n.canonical_key) db.opportunities o
            v.currents found)
          (rw found at e)
        ∙ known_key-view o key found)
  ]

  upsert_unprocessed-view :
      (key : String) (version : Option ℕ) {r : VersioningOutcome}
      → IsValid db
      → version ≡ none
      → (upsert_unprocessed c raw n version db).0 ≡ ok r
      → view key (upsert_unprocessed c raw n version db).1
        ≡ (if str_eq n.canonical_key key then some (summary_step n (view key db)) else view key db)
  upsert_unprocessed-view key none v fresh e = upsert_found-view key v e
  upsert_unprocessed-view key (some id) v fresh e = cc

  upsert_raw-view :
      (key : String) {r : VersioningOutcome}
      → IsValid db
      → raw.normalized_version_id ≡ none
      → (upsert_raw c n (some raw) db).0 ≡ ok r
      → view key (upsert_raw c n (some raw) db).1
        ≡ (if str_eq n.canonical_key key then some (summary_step n (view key db)) else view key db)
  upsert_raw-view key v fresh e =
      elim (Bool-cases (
        not (raw.source_id == n.source_id)
        || not (str_eq raw.source_record_id n.source_record_id))) [
          | inl differs ↦ let bad = rw differs at e in cc
          | inr same ↦
              rw same (upsert_unprocessed-view key raw.normalized_version_id v fresh (rw same at e))
        ]

  -- A raw record that has a version changes no summary.
  upsert_processed-view :
      (key : String) (version : ℕ)
      → raw.normalized_version_id ≡ some version
      → view key (upsert_raw c n (some raw) db).1 ≡ view key db
  upsert_processed-view key version done =
      elim (Bool-cases (
        not (raw.source_id == n.source_id)
        || not (str_eq raw.source_record_id n.source_record_id))) [
          | inl differs ↦ rw differs refl
          | inr same ↦
              rw (same, done)
                (elim (Option-cases (find (has_version_id version) db.versions)) [
                  | inl nothing ↦ rw nothing refl
                  | inr (v, there) ↦ rw there refl
                ])
        ]

-- A call that returns, on a raw record that has no version yet, takes the step of the specification at
-- the input's canonical key and changes no other key's summary.
pub upsert_opportunity_version-view :
    (c : Clocks) (id : ℕ) (raw : RawRecord) (n : NormalizedOpportunityInput) (db : VersionDb)
    (r : VersioningOutcome) (key : String)
    → IsValid db
    → find (has_raw_id id) db.raws ≡ some raw
    → raw.normalized_version_id ≡ none
    → (upsert_opportunity_version c (some id) n db).0 ≡ ok r
    → view key (upsert_opportunity_version c (some id) n db).1
      ≡ (if str_eq n.canonical_key key then some (summary_step n (view key db)) else view key db)
unfolding upsert_opportunity_version
upsert_opportunity_version-view c id raw n db r key v found fresh e =
    rw found (upsert_raw-view c raw n db key v fresh (rw found at e))

-- An earlier time never replaces a later one.
abbrev pub NotBefore : Option Summary → Option Summary → Type 0
NotBefore none t = Unit
NotBefore (some s) none = ⊥
NotBefore (some s) (some t) = s.effective_at ≤ t.effective_at

pub NotBefore-refl : (s : Option Summary) → NotBefore s s
NotBefore-refl none = tt
NotBefore-refl (some s) = omega arith

pub NotBefore-trans : (s t u : Option Summary) → NotBefore s t → NotBefore t u → NotBefore s u
NotBefore-trans none t u p q = tt
NotBefore-trans (some s) none u p q = absurd p
NotBefore-trans (some s) (some t) none p q = absurd q
NotBefore-trans (some s) (some t) (some u) p q = omega arith

NotBefore-step :
    (n : NormalizedOpportunityInput) (s : Option Summary) → NotBefore s (some (summary_step n s))
NotBefore-step n none = tt
NotBefore-step n (some s) = elim (Bool-cases (str_eq s.digest n.normalized_sha256)) [
  | inl e ↦ rw e (ground arith)
  | inr e ↦ elim (Bool-cases (leb s.effective_at n.effective_at)) [
    | inl f ↦ rw (e, f) (ground arith)
    | inr f ↦ rw (e, f) (omega arith)
  ]
]

NotBefore-choice :
    (b : Bool) (n : NormalizedOpportunityInput) (s : Option Summary)
    → NotBefore s (if b then some (summary_step n s) else s)
NotBefore-choice true n s = NotBefore-step n s
NotBefore-choice false n s = NotBefore-refl s

pub upsert-NotBefore :
    (c : Clocks) (id : Option ℕ) (n : NormalizedOpportunityInput) (db : VersionDb) (key : String)
    {r : VersioningOutcome}
    → IsValid db
    → (upsert_opportunity_version c id n db).0 ≡ ok r
    → NotBefore (view key db) (view key (upsert_opportunity_version c id n db).1)
unfolding upsert_opportunity_version
upsert-NotBefore c none n db key v e = cc
upsert-NotBefore c (some id) n db key v e = elim (Option-cases (find (has_raw_id id) db.raws)) [
  | inl nothing ↦ let bad = rw nothing at e in cc
  | inr (raw, found) ↦ elim (Option-cases raw.normalized_version_id) [
    | inl fresh ↦
        rw (found, upsert_raw-view c raw n db key v fresh (rw found at e))
          (NotBefore-choice (str_eq n.canonical_key key) n (view key db))
    | inr (version, done) ↦
        rw (found, upsert_processed-view c raw n db key version done) (NotBefore-refl (view key db))
  ]
]
