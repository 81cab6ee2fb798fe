-- ===== src/Versioning/Upsert/Refinement.antt =====
-- What apps/api/app/repositories/opportunities.py keeps of an opportunity, against a description on one
-- summary for each canonical key.
use Prim.Native.Nat.{max}
use procure_delta.Prelude.{
  get_or, eq_iff, arith, ℕ, ◌<◌, ◌≡◌, refl, sym, ap, ◌∙◌, inl, inr, String, true, false, Option,
  none, some, List, [], ◌∷◌, ◌==◌, ==_refl, str_eq, leb, if◌then◌else◌, find, find-All, find-test,
  All, Bool-cases,
}
use procure_delta.Versioning.Schema.{
  NormalizedOpportunityInput, Opportunity, OpportunityVersion, VersionDb, has_canonical_key,
  has_version_id, CurrentValue,
}
use procure_delta.Versioning.Upsert.{
  put_opportunity, current_version, is_after, becomes_current, refresh_current,
}
use procure_delta.Versioning.Upsert.Numbering.{HasCurrent, Distinct, ids, HasCurrent-cons}

-- What is known of an opportunity: its fields, the time since when, and the digest of the state.
pub record Summary : Type 0 where
  pub value : CurrentValue
  pub effective_at : ℕ
  pub digest : String

abbrev digest_found : Option OpportunityVersion → String
digest_found none = ""
digest_found (some v) = v.normalized_sha256

abbrev digest_of : List OpportunityVersion → Option ℕ → String
digest_of vs none = ""
digest_of vs (some id) = digest_found (find (has_version_id id) vs)

abbrev pub summary : List OpportunityVersion → Opportunity → Summary
summary vs o = record {
  value = o.value;
  effective_at = get_or 0 o.current_effective_at;
  digest = digest_of vs o.current_version_id;
}

abbrev pub summary_found : List OpportunityVersion → Option Opportunity → Option Summary
summary_found vs none = none
summary_found vs (some o) = some (summary vs o)

-- The summary of a canonical key.
abbrev pub view : String → VersionDb → Option Summary
view key db = summary_found db.versions (find (has_canonical_key key) db.opportunities)

abbrev pub summary_of_input : NormalizedOpportunityInput → Summary
summary_of_input n = record {
  value = n.value;
  effective_at = n.effective_at;
  digest = n.normalized_sha256;
}

-- The specification: the same state only moves the time forward, and another state replaces the
-- summary unless it is of an earlier time.
abbrev pub summary_step : NormalizedOpportunityInput → Option Summary → Summary
summary_step n none = summary_of_input n
summary_step n (some s) =
    if str_eq s.digest n.normalized_sha256
    then record s { effective_at = max s.effective_at n.effective_at }
    else if leb s.effective_at n.effective_at
    then summary_of_input n
    else s

put_opportunity_apart :
    (e : Opportunity) (os : List Opportunity)
    → All (λ j. (j == e.id) ≡ false) (ids os)
    → put_opportunity e os ≡ os
put_opportunity_apart e [] h = refl
put_opportunity_apart e (o ∷ os) h = rw (h.0, put_opportunity_apart e os h.1) refl

ids-All :
    (k : ℕ) (os : List Opportunity)
    → All (λ j. (j == k) ≡ false) (ids os)
    → All (λ (o : Opportunity). (o.id == k) ≡ false) os
ids-All k [] h = tt
ids-All k (o ∷ os) h = (h.0, ids-All k os h.1)

keys_apart :
    (x o key k : String)
    → str_eq x key ≡ false
    → str_eq o key ≡ true
    → str_eq x k ≡ true
    → str_eq o k ≡ false
keys_apart x o key k differs own e =
    ground (arith, eq_iff x key, eq_iff o key, eq_iff x k, eq_iff o k)

newer_find :
    (v : OpportunityVersion) (vs : List OpportunityVersion) (id : ℕ) (x : OpportunityVersion)
    → All (λ y. y.id < v.id) vs
    → find (has_version_id id) vs ≡ some x
    → find (has_version_id id) (v ∷ vs) ≡ find (has_version_id id) vs
newer_find v vs id x below found =
    let old : x.id < v.id = find-All (λ y. y.id < v.id) (has_version_id id) vs x below found in
    let same : has_version_id id x ≡ true = find-test (has_version_id id) vs x found in
    let newer : (v.id == id) ≡ false = ground arith in rw newer refl

pub refresh_same :
    (n : NormalizedOpportunityInput) (o : Opportunity)
    → ((refresh_current n o).id ≡ o.id) × ((refresh_current n o).canonical_key ≡ o.canonical_key)
unfolding refresh_current
refresh_same n o = ground arith

-- A search by key after the update of the opportunity that a key finds.
pub find-put_opportunity :
    (key k : String) (o o' : Opportunity) (os : List Opportunity)
    → Distinct (ids os)
    → find (has_canonical_key key) os ≡ some o
    → o'.id ≡ o.id
    → o'.canonical_key ≡ o.canonical_key
    → find (has_canonical_key k) (put_opportunity o' os)
      ≡ (if str_eq o.canonical_key k then some o' else find (has_canonical_key k) os)
find-put_opportunity key k o o' [] d h same same_key = cc
find-put_opportunity key k o o' (x ∷ xs) d h same same_key =
    elim (Bool-cases (str_eq x.canonical_key key)) [
      | inl here ↦
          let first : x ≡ o = ground (arith, h) in
          let own : o'.id ≡ x.id = same ∙ ap (λ y. y.id) (sym first) in
          let equal : (x.id == o'.id) ≡ true = rw own (==_refl x.id) in
          let rest : put_opportunity o' xs ≡ xs = put_opportunity_apart o' xs (rw own d.0) in
          let keys : x.canonical_key ≡ o.canonical_key = ap (λ y. y.canonical_key) first in
          elim (Bool-cases (str_eq o.canonical_key k)) [
            | inl e ↦ rw (equal, rest, same_key, e) refl
            | inr e ↦ rw (equal, rest, same_key, keys) (rw e refl)
          ]
      | inr later ↦
          let tail : find (has_canonical_key key) xs ≡ some o = rw later at h in
          let apart : (o.id == x.id) ≡ false =
            find-All (λ y. (y.id == x.id) ≡ false) (has_canonical_key key) xs o
              (ids-All x.id xs d.0) tail in
          let skipped : (x.id == o'.id) ≡ false = ground arith in
          elim (Bool-cases (str_eq x.canonical_key k)) [
            | inl e ↦
                let other : str_eq o.canonical_key k ≡ false =
                  keys_apart x.canonical_key o.canonical_key key k later
                    (find-test (has_canonical_key key) xs o tail) e in
                rw (skipped, e, other) refl
            | inr e ↦ rw (skipped, e) (find-put_opportunity key k o o' xs d.1 tail same same_key)
          ]
    ]

-- A version that is added does not change what is known of an opportunity that has one.
pub summary-cons :
    (v : OpportunityVersion) (vs : List OpportunityVersion) (o : Opportunity)
    → All (λ x. x.id < v.id) vs
    → HasCurrent vs o
    → summary (v ∷ vs) o ≡ summary vs o
summary-cons v vs o below (id, x, points, found, own) =
    let (id', x', points', found', own') =
      HasCurrent-cons v vs o below (id, x, points, found, own) in
    let same : find (has_version_id id) (v ∷ vs) ≡ find (has_version_id id) vs =
      newer_find v vs id x below found in
    rw (points, same) refl

pub becomes_current_lem : (at : ℕ) (old : Option ℕ) → becomes_current at old ≡ leb (get_or 0 old) at
becomes_current_lem at none = ground arith
becomes_current_lem at (some old) = refl

later_time :
    (at : ℕ) (old : Option ℕ)
    → (if is_after at old then at else get_or 0 old) ≡ max (get_or 0 old) at
later_time at none = ground arith
later_time at (some old) = ground arith

pub refresh_summary :
    (n : NormalizedOpportunityInput) (vs : List OpportunityVersion) (o : Opportunity)
    → summary vs (refresh_current n o) ≡ record (summary vs o) {
      effective_at = max (get_or 0 o.current_effective_at) n.effective_at;
    }
unfolding refresh_current
refresh_summary n vs o = elim (Bool-cases (is_after n.effective_at o.current_effective_at)) [
  | inl e ↦ rw (← later_time n.effective_at o.current_effective_at, e) refl
  | inr e ↦ rw (← later_time n.effective_at o.current_effective_at, e) refl
]

pub current_digest :
    (o : Opportunity) (db : VersionDb)
    → HasCurrent db.versions o
    → (x : OpportunityVersion) × (current_version o db ≡ some x)
      × ((summary db.versions o).digest ≡ x.normalized_sha256)
current_digest o db (id, x, points, found, own) =
    (x, rw (points, found) refl, rw (points, found) refl)
