-- ===== src/Ranking/Eligibility/Gate.antt =====
-- The gate of apps/api/app/ranking/eligibility.py, from its groups of rules.
use procure_delta.Prelude.{
  arith, ◌≡◌, refl, sym, ◌∙◌, ◌↔◌, Bool, true, not, ◌&&◌, List, [], ◌∷◌, ◌++◌,
}
use procure_delta.Lifecycle.Candidate.{is_empty}
use procure_delta.Ranking.Claims.{
  EligibilityProfile, EligibilityOpportunity, TextRules, allows_recommendation,
}
use procure_delta.Ranking.Eligibility.{
  region_findings, amount_findings, certification_findings, exclusions, evaluate_eligibility,
}
use procure_delta.Ranking.Eligibility.Rules.{
  is_clear, IsServed, IsWithin, IsCertified, IsUnmentioned, clear-IsServed, IsServed-clear,
  clear-IsWithin, IsWithin-clear, clear-IsCertified, IsCertified-clear, clear-IsUnmentioned,
  IsUnmentioned-clear,
}

regroup :
    (a b c d e f g : Bool)
    → ((a && (b && (c && d))) && not (not (e && (f && g))))
      ≡ ((a && e) && ((b && f) && ((c && g) && d)))
regroup a b c d e f g = ground arith

four_true :
    (a b c d : Bool)
    → (a && (b && (c && d))) ≡ true
    → (a ≡ true) × (b ≡ true) × (c ≡ true) × (d ≡ true)
four_true a b c d h = ground arith

all_true :
    {a b c d : Bool} → a ≡ true → b ≡ true → c ≡ true → d ≡ true → (a && (b && (c && d))) ≡ true
all_true ha hb hc hd = rw (ha, hb, hc, hd) refl

module _ {A : Type 0} where
  merge_hard :
      (r a c e : List A)
      → is_empty (r ++ a ++ c ++ e) ≡ (is_empty r && (is_empty a && (is_empty c && is_empty e)))
  merge_hard (_ ∷ _) a c e = refl
  merge_hard [] (_ ∷ _) c e = refl
  merge_hard [] [] (_ ∷ _) e = refl
  merge_hard [] [] [] e = refl

  merge_warnings :
      (r a c : List A) → is_empty (r ++ a ++ c) ≡ (is_empty r && (is_empty a && is_empty c))
  merge_warnings (_ ∷ _) a c = refl
  merge_warnings [] (_ ∷ _) c = refl
  merge_warnings [] [] c = refl

gate_split :
    (t : TextRules) (p : EligibilityProfile) (o : EligibilityOpportunity)
    → allows_recommendation (evaluate_eligibility t p o) ≡ (
        is_clear (region_findings t p.regions o.regions)
        && (is_clear (
              amount_findings t p.min_contract_amount p.max_contract_amount p.contract_currency
                o.estimated_amount o.currency)
            && (is_clear (certification_findings t p.certifications o.required_certifications)
                && is_empty (exclusions t p.excluded_keywords o.text_fields))))
unfolding evaluate_eligibility
gate_split t p o =
    let r = region_findings t p.regions o.regions in
    let a =
      amount_findings t p.min_contract_amount p.max_contract_amount p.contract_currency
        o.estimated_amount o.currency in
    let c = certification_findings t p.certifications o.required_certifications in
    let e = exclusions t p.excluded_keywords o.text_fields in
    rw (merge_hard r.0 a.0 c.0 e, merge_warnings r.1 a.1 c.1)
      (regroup (is_empty r.0) (is_empty a.0) (is_empty c.0) (is_empty e) (is_empty r.1)
        (is_empty a.1) (is_empty c.1))

-- The gate opens exactly where a region of the opportunity is known to be served, the amount is known
-- to lie within the profile's bounds in its currency or there are no bounds, each required
-- certification is known and owned, and no text field mentions an excluded keyword.
pub gate_iff :
    (t : TextRules) (p : EligibilityProfile) (o : EligibilityOpportunity)
    → (allows_recommendation (evaluate_eligibility t p o) ≡ true) ↔ (
        IsServed t p.regions o.regions
        × IsWithin t p.min_contract_amount p.max_contract_amount p.contract_currency
            o.estimated_amount o.currency
        × IsCertified t p.certifications o.required_certifications
        × IsUnmentioned t p.excluded_keywords o.text_fields)
gate_iff t p o =
    let split = gate_split t p o in
    (
      λ open_gate.
          let (r, a, c, e) = four_true _ _ _ _ (sym split ∙ open_gate) in
          (
            clear-IsServed t p.regions o.regions r,
            clear-IsWithin t p.min_contract_amount p.max_contract_amount p.contract_currency
                o.estimated_amount o.currency a,
            clear-IsCertified t p.certifications o.required_certifications c,
            clear-IsUnmentioned t p.excluded_keywords o.text_fields e,
          ),
      λ (r, a, c, e).
          split
          ∙ all_true (IsServed-clear t p.regions o.regions r)
              (IsWithin-clear t p.min_contract_amount p.max_contract_amount p.contract_currency
                o.estimated_amount o.currency a)
              (IsCertified-clear t p.certifications o.required_certifications c)
              (IsUnmentioned-clear t p.excluded_keywords o.text_fields e),
    )
