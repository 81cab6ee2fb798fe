-- ===== src/Lifecycle/Candidate.antt =====
-- The candidates and decisions of apps/api/app/lifecycle/linker.py, and the tests on two candidates.
-- An amount is a whole number of its smallest unit and a score or a confidence one of
-- ten-thousandths; a time is in microseconds. Text normalisation (casefolding and `re.sub`) and the
-- similarity test of `SequenceMatcher` are parameters.
use Prim.Native.Nat.{Ordering}
use Prim.Native.String
use procure_delta.Prelude.{
  ℕ, ◌+◌, ◌-◌, ◌*◌, String, Bool, true, false, not, ◌&&◌, Option, none, some, List, [], ◌∷◌, ltb,
  leb, ◌==◌, str_eq, if◌then◌else◌, any, select,
}
use procure_delta.Prelude.Int.{ℤ, eq_ℤ}

pub record OfficialReference : Type 0 where
  pub source_id : ℕ
  pub source_record_id : String
  pub lifecycle_stage : String

pub record Identifier : Type 0 where
  pub scheme : String
  pub value : String

pub record LinkCandidate : Type 0 where
  pub opportunity_id : ℕ
  pub source_id : ℕ
  pub source_record_id : String
  pub lifecycle_stage : String
  pub title : String
  pub buyer_name : String
  pub estimated_amount : Option ℤ
  pub published_at : Option ℕ
  pub official_references : List OfficialReference
  pub normalized_identifiers : List Identifier

pub data Method : Type 0 where
  official_reference normalized_identifier fingerprint semantic : Method

pub data Evidence : Type 0 where
  reference_evidence : ℕ → String → Evidence
  identifier_evidence : ℕ → Option Identifier → Evidence
  fields_evidence : List String → Evidence
  bounded_evidence : Evidence

pub data Reason : Type 0 where
  incompatible_stage official_reference_not_found no_conservative_match : Reason
  ambiguous_official_reference ambiguous_normalized_identifier : Reason
  ambiguous_fingerprint ambiguous_semantic : Reason

pub data LinkDecision : Type 0 where
  resolved : ℕ → Method → ℕ → Evidence → LinkDecision
  unresolved : Reason → LinkDecision

-- What the linker calls and does not implement; the comparator is optional. A score that is no
-- finite number is `none`.
pub record Matching : Type 0 where
  pub normalized_text : String → String
  pub similar : String → String → Bool
  pub comparator : Option (LinkCandidate → LinkCandidate → Option ℤ)

-- STAGE_ORDER
unfoldable pub stage_order : String → Option ℕ
stage_order s =
    if str_eq s "pre-specification"
    then some 0
    else if str_eq s "tender"
    then some 1
    else if str_eq s "amendment"
    then some 2
    else if str_eq s "award"
    then some 3
    else if str_eq s "contract"
    then some 4
    else none

abbrev pub rank_lt : Option ℕ → Option ℕ → Bool
rank_lt none child = false
rank_lt (some p) none = false
rank_lt (some p) (some c) = ltb p c

unfoldable pub forward : LinkCandidate → LinkCandidate → Bool
forward parent child =
    not (parent.opportunity_id == child.opportunity_id)
    && rank_lt (stage_order parent.lifecycle_stage) (stage_order child.lifecycle_stage)

abbrev pub same_identifier : Identifier → Identifier → Bool
same_identifier a b = str_eq a.scheme b.scheme && str_eq a.value b.value

-- `identifiers.intersection(item.normalized_identifiers)`
abbrev pub shared : List Identifier → LinkCandidate → List Identifier
shared ids item = select (λ i. any (same_identifier i) item.normalized_identifiers) ids

abbrev pub is_empty {ℓ} : {A : Type ℓ} → List A → Bool
is_empty [] = true
is_empty (_ ∷ _) = false

-- The order of Python tuples of texts.
identifier_lt : Identifier → Identifier → Bool
identifier_lt a b = elim (String.compare a.scheme b.scheme) [
  | Ordering.lt ↦ true
  | Ordering.eq ↦ elim (String.compare a.value b.value) [ Ordering.lt ↦ true | _ ↦ false ]
  | Ordering.gt ↦ false
]

-- `sorted(…)[0]`
unfoldable pub least : List Identifier → Option Identifier
unfolding identifier_lt
least [] = none
least (i ∷ is) = elim (least is) [
  | none ↦ some i
  | some j ↦ if identifier_lt j i then some j else some i
]

abbrev pub abs_diff : ℕ → ℕ → ℕ
abs_diff a b = (a - b) + (b - a)

-- timedelta(days=30)
abbrev pub thirty_days : ℕ
thirty_days = 30 * 86400 * 1000000

abbrev pub same_amount : Option ℤ → Option ℤ → Bool
same_amount (some a) (some b) = eq_ℤ a b
same_amount (some a) none = false
same_amount none b = false

abbrev pub near_in_time : Option ℕ → Option ℕ → Bool
near_in_time (some a) (some b) = leb (abs_diff a b) thirty_days
near_in_time (some a) none = false
near_in_time none b = false
