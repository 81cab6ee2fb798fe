-- ===== src/Ranking/Eligibility.antt =====
-- `evaluate_eligibility` of apps/api/app/ranking/eligibility.py, one function for each group of rules.
-- A group's findings are its hard failures and its warnings.
pub mod Search
pub mod Rules
pub mod Gate
use Prim.Native.Nat.{Ordering}
use Prim.Native.String.{◌++◌ as join}
use procure_delta.Prelude.{
  String, Bool, true, false, not, ◌&&◌, ◌||◌, Option, none, some, List, [], ◌∷◌, ◌++◌, str_eq,
  if◌then◌else◌, any, select, is_some, map,
}
use procure_delta.Prelude.Int.{ℤ, ltb_ℤ}
use procure_delta.Lifecycle.Candidate.{is_empty}
use procure_delta.Ranking.Claims.{
  EvidenceClaim, TextValue, one, many, EligibilityProfile, EligibilityOpportunity,
  EligibilityReason, EligibilityDecision, TextRules,
}

abbrev pub Findings : Type 0
Findings = List EligibilityReason × List EligibilityReason

abbrev pub reason : String → List String → String → String → EligibilityReason
reason code evidence message field = record {
  code = code;
  field = field;
  message = message;
  evidence = evidence;
}

-- One hard failure.
abbrev pub hard : String → List String → String → String → Findings
hard code evidence message field = (reason code evidence message field ∷ [], [])

-- One warning.
abbrev pub warn : String → List String → String → String → Findings
warn code evidence message field = ([], reason code evidence message field ∷ [])

abbrev pub serves : TextRules → List String → List String → Bool
serves t served regions = any (λ r. any (λ s. str_eq (t.norm s) (t.norm r)) served) regions

unfoldable pub region_findings :
    TextRules → List String → Option (EvidenceClaim (List String)) → Findings
region_findings t served none = warn "region_unknown" [] "Opportunity region is unknown." "regions"
region_findings t served (some claim) =
    if is_empty served
    then warn "profile_regions_unknown" claim.evidence "Company service regions are not configured."
        "regions"
    else if not (serves t served claim.value)
    then hard "region_not_served" claim.evidence
        "Opportunity region is outside the company service regions." "regions"
    else ([], [])

abbrev pub below : ℤ → Option ℤ → Bool
below amount none = false
below amount (some bound) = ltb_ℤ amount bound

abbrev pub above : ℤ → Option ℤ → Bool
above amount none = false
above amount (some bound) = ltb_ℤ bound amount

-- The two bounds, in one currency.
unfoldable pub bound_findings : Option ℤ → Option ℤ → EvidenceClaim ℤ → List EligibilityReason
bound_findings low high claim =
    (if below claim.value low
      then reason "amount_below_minimum" claim.evidence
          "Opportunity amount is below the company minimum." "estimated_amount"
        ∷ []
      else [])
    ++ (if above claim.value high
        then reason "amount_above_maximum" claim.evidence
            "Opportunity amount is above the company maximum." "estimated_amount"
          ∷ []
        else [])

-- A profile that has a bound.
unfoldable pub bounded_findings :
    TextRules
    → Option ℤ
    → Option ℤ
    → Option String
    → Option (EvidenceClaim ℤ)
    → Option (EvidenceClaim String)
    → Findings
bounded_findings t low high k none currency =
    warn "amount_unknown" [] "Opportunity amount is unknown." "estimated_amount"
bounded_findings t low high k (some amount) none =
    warn "amount_currency_unknown" [] "Opportunity currency is unknown." "currency"
bounded_findings t low high none (some amount) (some currency) =
    warn "profile_currency_unknown" currency.evidence "Company contract currency is not configured."
      "currency"
bounded_findings t low high (some k) (some amount) (some currency) =
    if not (str_eq (t.upper currency.value) k)
    then warn "amount_currency_mismatch" currency.evidence
        "Amount bounds use a different currency; no conversion was invented." "currency"
    else (bound_findings low high amount, [])

unfoldable pub amount_findings :
    TextRules
    → Option ℤ
    → Option ℤ
    → Option String
    → Option (EvidenceClaim ℤ)
    → Option (EvidenceClaim String)
    → Findings
amount_findings t low high k amount currency =
    if is_some low || is_some high then bounded_findings t low high k amount currency else ([], [])

abbrev pub missing_certifications : TextRules → List String → List String → List String
missing_certifications t owned =
    select (λ item. not (any (λ o. str_eq (t.norm o) (t.norm item)) owned))

-- `sorted(missing)`
abbrev pub insert_text : String → List String → List String
insert_text s [] = s ∷ []
insert_text s (x ∷ xs) = elim (Prim.Native.String.compare x s) [
  | Ordering.lt ↦ x ∷ insert_text s xs
  | _ ↦ s ∷ x ∷ xs
]

abbrev pub sorted_texts : List String → List String
sorted_texts [] = []
sorted_texts (x ∷ xs) = insert_text x (sorted_texts xs)

-- `', '.join(…)`
abbrev pub comma_texts : List String → String
comma_texts [] = ""
comma_texts (x ∷ []) = x
comma_texts (x ∷ y ∷ ys) = join x (join ", " (comma_texts (y ∷ ys)))

unfoldable pub certification_findings :
    TextRules → List String → Option (EvidenceClaim (List String)) → Findings
certification_findings t owned none =
    warn "certifications_unknown" [] "Required certifications are unknown."
      "required_certifications"
certification_findings t owned (some claim) =
    let missing = missing_certifications t owned claim.value in
    if is_empty missing
    then ([], [])
    else hard "missing_certification" claim.evidence
        (join "Missing required certification: " (join (comma_texts (sorted_texts missing)) "."))
        "required_certifications"

abbrev pub text_values : TextValue → List String
text_values (one s) = s ∷ []
text_values (many ss) = ss

abbrev pub mentions : TextRules → String → EvidenceClaim TextValue → Bool
mentions t keyword claim = any (λ v. t.occurs (t.norm keyword) (t.norm v)) (text_values claim.value)

-- One keyword: the first text field that mentions it.
unfoldable pub keyword_failure :
    TextRules → String → List (EvidenceClaim TextValue) → List EligibilityReason
keyword_failure t keyword [] = []
keyword_failure t keyword (claim ∷ claims) =
    if mentions t keyword claim
    then reason "explicit_exclusion" claim.evidence
        (join "Matched company excluded keyword: " (join keyword ".")) claim.field
      ∷ []
    else keyword_failure t keyword claims

unfoldable pub exclusions :
    TextRules → List String → List (EvidenceClaim TextValue) → List EligibilityReason
exclusions t [] claims = []
exclusions t (keyword ∷ keywords) claims =
    keyword_failure t keyword claims ++ exclusions t keywords claims

unfoldable pub evaluate_eligibility :
    TextRules → EligibilityProfile → EligibilityOpportunity → EligibilityDecision
evaluate_eligibility t p o =
    let regions = region_findings t p.regions o.regions in
    let amounts =
      amount_findings t p.min_contract_amount p.max_contract_amount p.contract_currency
        o.estimated_amount o.currency in
    let certifications = certification_findings t p.certifications o.required_certifications in
    let failures =
      regions.0
      ++ amounts.0
      ++ certifications.0
      ++ exclusions t p.excluded_keywords o.text_fields in
    record {
      eligible = is_empty failures;
      hard_failures = failures;
      warnings = regions.1 ++ amounts.1 ++ certifications.1;
    }
