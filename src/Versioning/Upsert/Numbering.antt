-- ===== src/Versioning/Upsert/Numbering.antt =====
-- The invariant of the tables that apps/api/app/repositories/opportunities.py writes.
use procure_delta.Prelude.{
  arith, ℕ, suc, ◌+◌, ◌≤◌, ◌<◌, ◌≡◌, refl, sym, ap, ◌∙◌, ◌⊎◌, inl, inr, true, false, Option, none,
  some, List, [], ◌∷◌, map, ◌==◌, ==→eq, if◌then◌else◌, find, find-All, find-test, put_row-All, All,
  Bool-cases,
}
use procure_delta.Versioning.Schema.{
  RawRecord, NormalizedOpportunityInput, Opportunity, OpportunityVersion, VersionDb, Clocks,
  has_version_id,
}
use procure_delta.Versioning.Upsert.{
  put_raw, put_opportunity, refresh_current, latest_version_number,
}

abbrev pub count_versions : ℕ → List OpportunityVersion → ℕ
count_versions id [] = 0
count_versions id (v ∷ vs) = (if v.opportunity_id == id then 1 else 0) + count_versions id vs

-- The versions of each opportunity are numbered from 1 in the order in which they came.
abbrev pub IsNumbered : List OpportunityVersion → Type 0
IsNumbered [] = Unit
IsNumbered (v ∷ vs) = (v.version_number ≡ suc (count_versions v.opportunity_id vs)) × IsNumbered vs

-- The opportunity's current version is there, and is its own.
abbrev pub HasCurrent : List OpportunityVersion → Opportunity → Type 0
HasCurrent vs o =
    (id : ℕ) × (v : OpportunityVersion) × (o.current_version_id ≡ some id)
    × (find (has_version_id id) vs ≡ some v)
    × (v.opportunity_id ≡ o.id)

abbrev pub Distinct : List ℕ → Type 0
Distinct [] = Unit
Distinct (k ∷ ks) = All (λ j. (j == k) ≡ false) ks × Distinct ks

abbrev pub ids : List Opportunity → List ℕ
ids = map (λ o. o.id)

pub record IsValid (db : VersionDb) : Type 0 where
  pub numbered : IsNumbered db.versions
  pub version_ids : All (λ v. v.id < db.next_id) db.versions
  pub opportunity_ids : All (λ o. o.id < db.next_id) db.opportunities
  pub apart : Distinct (ids db.opportunities)
  pub currents : All (HasCurrent db.versions) db.opportunities

-- The same, where one opportunity may be new and have no version yet.
pub record IsOpen (n : NormalizedOpportunityInput) (o : Opportunity) (db : VersionDb) : Type 0 where
  pub numbered : IsNumbered db.versions
  pub version_ids : All (λ v. v.id < db.next_id) db.versions
  pub opportunity_ids : All (λ x. x.id < db.next_id) db.opportunities
  pub apart : Distinct (ids db.opportunities)
  pub others : All (λ x. (x ≡ o) ⊎ HasCurrent db.versions x) db.opportunities
  pub own :
      HasCurrent db.versions o
      ⊎ ((o.current_version_id ≡ none) × (o.current_effective_at ≡ some n.effective_at))
  pub known : o.id < db.next_id

pub latest_version_number-count :
    (id : ℕ) (vs : List OpportunityVersion)
    → IsNumbered vs
    → latest_version_number id vs ≡ count_versions id vs
unfolding latest_version_number
latest_version_number-count id [] h = refl
latest_version_number-count id (v ∷ vs) h =
    let number = h.0 in
    elim (Bool-cases (v.opportunity_id == id)) [
      | inl same ↦
          let own : v.opportunity_id ≡ id = ==→eq v.opportunity_id id same in
          rw (same, latest_version_number-count id vs h.1, number, own) (omega arith)
      | inr other ↦ rw (other, latest_version_number-count id vs h.1) (omega arith)
    ]

pub absurd_ids : {A : Type 0} (k j : ℕ) → k ≡ j → (k == j) ≡ false → A
absurd_ids k j same other = absurd (ground arith)

-- A version that is added hides none of the older ones.
pub HasCurrent-cons :
    (v : OpportunityVersion) (vs : List OpportunityVersion) (o : Opportunity)
    → All (λ x. x.id < v.id) vs
    → HasCurrent vs o
    → HasCurrent (v ∷ vs) o
HasCurrent-cons v vs o below (id, x, points, found, own) =
    let old : x.id < v.id = find-All (λ y. y.id < v.id) (has_version_id id) vs x below found in
    let same : has_version_id id x ≡ true = find-test (has_version_id id) vs x found in
    let newer : (v.id == id) ≡ false = ground arith in (id, x, points, rw newer found, own)

pub ids-put_opportunity :
    (e : Opportunity) (os : List Opportunity) → ids (put_opportunity e os) ≡ ids os
ids-put_opportunity e [] = refl
ids-put_opportunity e (o ∷ os) = elim (Bool-cases (o.id == e.id)) [
  | inl same ↦
      let own : o.id ≡ e.id = ==→eq o.id e.id same in rw (same, ids-put_opportunity e os, own) refl
  | inr other ↦ rw (other, ids-put_opportunity e os) refl
]

pub put_raw-IsValid :
    (c : Clocks) (version : Option ℕ) (r : RawRecord) (db : VersionDb)
    → IsValid db
    → IsValid (put_raw c version r db)
put_raw-IsValid c version r db v = record {
  numbered = v.numbered;
  version_ids = v.version_ids;
  opportunity_ids = v.opportunity_ids;
  apart = v.apart;
  currents = v.currents;
}

-- The opportunity that was open has a version now.
pub close :
    (n : NormalizedOpportunityInput) (o o' : Opportunity) (db db' : VersionDb)
    → IsOpen n o db
    → o'.id ≡ o.id
    → db'.opportunities ≡ put_opportunity o' db.opportunities
    → IsNumbered db'.versions
    → All (λ v. v.id < db'.next_id) db'.versions
    → db.next_id ≤ db'.next_id
    → ((x : Opportunity) → HasCurrent db.versions x → HasCurrent db'.versions x)
    → HasCurrent db'.versions o'
    → IsValid db'
close n o o' db db' h same os numbered versions le old new = record {
  numbered = numbered;
  version_ids = versions;
  opportunity_ids = rw os (
      put_row-All (λ x. x.id < db.next_id) (λ x. x.id < db'.next_id) (λ x. x.id) o'
        (let k = h.known in omega arith) (λ x p _. omega arith) db.opportunities h.opportunity_ids);
  apart = rw (os, ids-put_opportunity o' db.opportunities) h.apart;
  currents = rw os (
      put_row-All (λ x. (x ≡ o) ⊎ HasCurrent db.versions x) (HasCurrent db'.versions) (λ x. x.id) o'
        new
        (λ x p other. elim p [
          | inl e ↦ absurd_ids x.id o'.id (ap (λ y. y.id) e ∙ sym same) other
          | inr q ↦ old x q
        ])
        db.opportunities h.others);
}

pub refresh_current-id :
    (n : NormalizedOpportunityInput) (o : Opportunity)
    → ((refresh_current n o).id ≡ o.id)
      × ((refresh_current n o).current_version_id ≡ o.current_version_id)
unfolding refresh_current
refresh_current-id n o = ground arith
