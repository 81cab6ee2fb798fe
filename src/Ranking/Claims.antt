-- ===== src/Ranking/Claims.antt =====
-- The inputs and the decision of apps/api/app/ranking/eligibility.py. An amount is a whole number of
-- its smallest unit, and the JSON object of an evidence is a text. Unicode casefolding, `upper` and
-- the word search of `re.search` are parameters.
use procure_delta.Prelude.{String, Bool, ◌&&◌, not, Option, List}
use procure_delta.Prelude.Int.{ℤ}
use procure_delta.Lifecycle.Candidate.{is_empty}

pub record EvidenceClaim {ℓ} (A : Type ℓ) : Type ℓ where
  pub field : String
  pub value : A
  pub evidence : List String

-- A claim's value that is a list, or not.
pub data TextValue : Type 0 where
  one : String → TextValue
  many : List String → TextValue

pub record EligibilityProfile : Type 0 where
  pub regions : List String
  pub certifications : List String
  pub min_contract_amount : Option ℤ
  pub max_contract_amount : Option ℤ
  pub contract_currency : Option String
  pub excluded_keywords : List String

pub record EligibilityOpportunity : Type 0 where
  pub regions : Option (EvidenceClaim (List String))
  pub estimated_amount : Option (EvidenceClaim ℤ)
  pub currency : Option (EvidenceClaim String)
  pub required_certifications : Option (EvidenceClaim (List String))
  pub text_fields : List (EvidenceClaim TextValue)

pub record EligibilityReason : Type 0 where
  pub code : String
  pub field : String
  pub message : String
  pub evidence : List String

pub record EligibilityDecision : Type 0 where
  pub eligible : Bool
  pub hard_failures : List EligibilityReason
  pub warnings : List EligibilityReason

abbrev pub needs_review : EligibilityDecision → Bool
needs_review d = not (is_empty d.warnings)

-- The gate of the ranking.
abbrev pub allows_recommendation : EligibilityDecision → Bool
allows_recommendation d = d.eligible && not (needs_review d)

-- What the rules call of Python's text functions: `_norm`, `str.upper`, and the search of a needle
-- that no word character touches.
pub record TextRules : Type 0 where
  pub norm : String → String
  pub upper : String → String
  pub occurs : String → String → Bool
