-- ===== src/Ranking/Tests.antt =====
-- The rules of apps/api/app/ranking/eligibility.py on a company and two opportunities.
use procure_delta.Prelude.{
  none, false, ◌≡◌, ◌↔◌, refl, String, true, some, List, [], ◌∷◌, str_eq, map,
}
use procure_delta.Prelude.Int.{pos}
use procure_delta.Prelude.Actions.{ok}
use procure_delta.Ranking.Score.{
  Decimal, RawScores, RankingEligibility, RankingDecision, open_until, rank_opportunity, rank_with,
  bounded_sum, bounded_score, half_even, weighted,
}
use procure_delta.Ranking.Score.Bounds.{Earned, recommended-Earned}
use procure_delta.Ranking.Claims.{
  one, EligibilityProfile, EligibilityOpportunity, EligibilityReason, TextRules,
  allows_recommendation,
}
use procure_delta.Ranking.Eligibility.{
  region_findings, bound_findings, bounded_findings, amount_findings, certification_findings,
  keyword_failure, exclusions, evaluate_eligibility,
}
use procure_delta.Ranking.Eligibility.Rules.{IsServed, IsWithin, IsCertified, IsUnmentioned}
use procure_delta.Ranking.Eligibility.Gate.{gate_iff}

abbrev plain : TextRules
plain = record { norm = λ s. s; upper = λ s. s; occurs = str_eq }

abbrev company : EligibilityProfile
company = record {
  regions = "Seoul" ∷ "Busan" ∷ [];
  certifications = "ISO9001" ∷ [];
  min_contract_amount = some (pos 100);
  max_contract_amount = some (pos 900);
  contract_currency = some "KRW";
  excluded_keywords = "weapons" ∷ [];
}

abbrev works : EligibilityOpportunity
works = record {
  regions = some (record { field = "regions"; value = "Busan" ∷ []; evidence = "e1" ∷ [] });
  estimated_amount = some (record { field = "estimated_amount"; value = pos 500; evidence = [] });
  currency = some (record { field = "currency"; value = "KRW"; evidence = [] });
  required_certifications =
      some (record { field = "required_certifications"; value = "ISO9001" ∷ []; evidence = [] });
  text_fields = record { field = "title"; value = one "roads"; evidence = [] } ∷ [];
}

works_allowed : allows_recommendation (evaluate_eligibility plain company works) ≡ true
unfolding evaluate_eligibility region_findings bound_findings bounded_findings amount_findings
    certification_findings keyword_failure exclusions
works_allowed = refl

codes : List EligibilityReason → List String
codes = map (λ r. r.code)

-- An amount below the minimum and a missing certification are both reported.
two_failures :
    codes
      (evaluate_eligibility plain company (record works {
        estimated_amount =
            some (record { field = "estimated_amount"; value = pos 50; evidence = [] });
        required_certifications =
            some (record {
              field = "required_certifications";
              value = "ISO27001" ∷ [];
              evidence = [];
            });
      })).hard_failures
    ≡ "amount_below_minimum" ∷ "missing_certification" ∷ []
unfolding evaluate_eligibility region_findings bound_findings bounded_findings amount_findings
    certification_findings keyword_failure exclusions codes
two_failures = refl

gate_iff_example : (allows_recommendation (evaluate_eligibility plain company works) ≡ true) ↔ (
    IsServed plain company.regions works.regions
    × IsWithin plain company.min_contract_amount company.max_contract_amount
        company.contract_currency works.estimated_amount works.currency
    × IsCertified plain company.certifications works.required_certifications
    × IsUnmentioned plain company.excluded_keywords works.text_fields)
gate_iff_example = gate_iff plain company works

abbrev half : Decimal
half = record { numerator = pos 5; scale = 1 }

abbrev strong : Decimal
strong = record { numerator = pos 7999999; scale = 7 }

abbrev raw_scores : RawScores
raw_scores = record {
  lexical = strong;
  capability = strong;
  category = strong;
  amount = half;
  recency_deadline = half;
}

abbrev clear_gate : RankingEligibility
clear_gate = record { eligible = true; hard_failure_codes = []; warning_codes = [] }

abbrev recommendation : RankingDecision
recommendation = record {
  features = record {
    lexical = 80000;
    capability = 80000;
    category = 80000;
    amount = 50000;
    recency_deadline = 50000;
  };
  feature_score = 71000;
  semantic_score = none;
  final_score = 71000;
  recommended = true;
  deadline = open_until;
}

raw_scores_ranked :
    rank_opportunity raw_scores clear_gate 10 (some 20) none false ≡ ok recommendation
unfolding rank_opportunity rank_with bounded_sum bounded_score half_even weighted
raw_scores_ranked = refl

recommended-Earned_example : Earned clear_gate open_until recommendation
recommended-Earned_example =
    recommended-Earned raw_scores clear_gate 10 (some 20) none false recommendation
      raw_scores_ranked refl
