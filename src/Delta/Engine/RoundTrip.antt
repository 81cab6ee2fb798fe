-- ===== src/Delta/Engine/RoundTrip.antt =====
-- The field changes of apps/api/app/delta/engine.py, applied to the claims before.
use procure_delta.Prelude.{
  arith, ◌≡◌, refl, ap, ◌∙◌, String, Bool, true, false, ◌&&◌, Option, none, some, List, [], ◌∷◌,
  str_eq, eq_iff, ==→eq,
}
use procure_delta.Prelude.Int.{ℤ, pos, negsuc, eq_ℤ}
use procure_delta.Delta.Impact.{
  Money, Change, attachments, budget, closes_at, regions, required_certifications,
  required_capabilities, participation_constraints, contract_period,
}
use procure_delta.Delta.Engine.{
  Claims, Proofs, Evidence, FieldChange, report, same_option, same_texts, same_money, field_changes,
}

-- The claims with one field set to its value after the change.
abbrev pub apply_change : Change → Claims → Claims
apply_change (attachments ks) c = c
apply_change (budget b a) c = record c { budget = a }
apply_change (closes_at b a) c = record c { closes_at = a }
apply_change (regions b a) c = record c { regions = a }
apply_change (required_certifications b a) c = record c { required_certifications = a }
apply_change (required_capabilities b a) c = record c { required_capabilities = a }
apply_change (participation_constraints b a) c = record c { participation_constraints = a }
apply_change (contract_period b a) c = record c { contract_period = a }

abbrev pub apply_changes : List FieldChange → Claims → Claims
apply_changes [] c = c
apply_changes (f ∷ fs) c = apply_changes fs (apply_change f.change c)

both : (a b : Bool) → (a && b) ≡ true → (a ≡ true) × (b ≡ true)
both a b e = ground arith

same_option_lem :
    {A : Type 0} (same : A → A → Bool)
    → ((a b : A) → same a b ≡ true → a ≡ b)
    → (a b : Option A) → same_option same a b ≡ true
    → a ≡ b
same_option_lem same h none none e = refl
same_option_lem same h none (some b) e = cc
same_option_lem same h (some a) none e = cc
same_option_lem same h (some a) (some b) e = ap some (h a b e)

same_text : (a b : String) → str_eq a b ≡ true → a ≡ b
same_text a b = (eq_iff a b).0

same_texts_lem : (a b : List String) → same_texts a b ≡ true → a ≡ b
same_texts_lem [] [] e = refl
same_texts_lem [] (y ∷ ys) e = cc
same_texts_lem (x ∷ xs) [] e = cc
same_texts_lem (x ∷ xs) (y ∷ ys) e =
    let (first, rest) = both (str_eq x y) (same_texts xs ys) e in
    rw (same_text x y first, same_texts_lem xs ys rest) refl

same_ℤ : (a b : ℤ) → eq_ℤ a b ≡ true → a ≡ b
same_ℤ (pos a) (pos b) e = ap pos (==→eq a b e)
same_ℤ (negsuc a) (negsuc b) e = ap negsuc (==→eq a b e)
same_ℤ (pos a) (negsuc b) e = cc
same_ℤ (negsuc a) (pos b) e = cc

same_money_lem : (a b : Money) → same_money a b ≡ true → a ≡ b
same_money_lem a b e =
    let (amount, cur) =
      both (eq_ℤ a.estimated_amount b.estimated_amount) (str_eq a.currency b.currency) e in
    let amount' = same_ℤ a.estimated_amount b.estimated_amount amount in
    let cur' = same_text a.currency b.currency cur in cc

-- A field that is not reported has the value that the change would set.
apply_report :
    {A : Type 0} (same : Bool) (old new : Option A) (change : Change) (b a : List Evidence)
    (rest : List FieldChange) (c d : Claims)
    → (same ≡ true → old ≡ new)
    → (old ≡ new → c ≡ d)
    → apply_change change c ≡ d
    → apply_changes (report same change b a rest) c ≡ apply_changes rest d
apply_report true old new change b a rest c d h unchanged set =
    ap (apply_changes rest) (unchanged (h refl))
apply_report false old new change b a rest c d h unchanged set = ap (apply_changes rest) set

-- The steps from the claims before to those after, one field at a time.
module _ (b a : Claims) where
  abbrev after_budget : Claims
  after_budget = record b { budget = a.budget }

  abbrev after_closes_at : Claims
  after_closes_at = record after_budget { closes_at = a.closes_at }

  abbrev after_regions : Claims
  after_regions = record after_closes_at { regions = a.regions }

  abbrev after_required_certifications : Claims
  after_required_certifications = record after_regions {
    required_certifications = a.required_certifications;
  }

  abbrev after_required_capabilities : Claims
  after_required_capabilities = record after_required_certifications {
    required_capabilities = a.required_capabilities;
  }

  abbrev after_participation_constraints : Claims
  after_participation_constraints = record after_required_capabilities {
    participation_constraints = a.participation_constraints;
  }

  abbrev after_contract_period : Claims
  after_contract_period = record after_participation_constraints {
    contract_period = a.contract_period;
  }

-- The reported changes, applied to the claims of the older snapshot, give those of the newer one.
pub apply-field_changes :
    (b a : Claims) (be ae : Proofs) → apply_changes (field_changes (b, be) (a, ae)) b ≡ a
unfolding field_changes
apply-field_changes b a be ae =
    apply_report (same_option same_money b.budget a.budget) b.budget a.budget
      (budget b.budget a.budget) be.budget ae.budget _ b (after_budget b a)
      (same_option_lem same_money same_money_lem b.budget a.budget)
      (ap (λ z. record b { budget = z })) refl
    ∙ apply_report (same_option str_eq b.closes_at a.closes_at) b.closes_at a.closes_at
        (closes_at b.closes_at a.closes_at) be.closes_at ae.closes_at _ (after_budget b a)
        (after_closes_at b a) (same_option_lem str_eq same_text b.closes_at a.closes_at)
        (ap (λ z. record (after_budget b a) { closes_at = z })) refl
    ∙ apply_report (same_option same_texts b.regions a.regions) b.regions a.regions
        (regions b.regions a.regions) be.regions ae.regions _ (after_closes_at b a)
        (after_regions b a) (same_option_lem same_texts same_texts_lem b.regions a.regions)
        (ap (λ z. record (after_closes_at b a) { regions = z })) refl
    ∙ apply_report (same_option same_texts b.required_certifications a.required_certifications)
        b.required_certifications a.required_certifications
        (required_certifications b.required_certifications a.required_certifications)
        be.required_certifications ae.required_certifications _ (after_regions b a)
        (after_required_certifications b a)
        (same_option_lem same_texts same_texts_lem b.required_certifications
          a.required_certifications)
        (ap (λ z. record (after_regions b a) { required_certifications = z })) refl
    ∙ apply_report (same_option same_texts b.required_capabilities a.required_capabilities)
        b.required_capabilities a.required_capabilities
        (required_capabilities b.required_capabilities a.required_capabilities)
        be.required_capabilities ae.required_capabilities _ (after_required_certifications b a)
        (after_required_capabilities b a)
        (same_option_lem same_texts same_texts_lem b.required_capabilities a.required_capabilities)
        (ap (λ z. record (after_required_certifications b a) { required_capabilities = z })) refl
    ∙ apply_report (same_option same_texts b.participation_constraints a.participation_constraints)
        b.participation_constraints a.participation_constraints
        (participation_constraints b.participation_constraints a.participation_constraints)
        be.participation_constraints ae.participation_constraints _
        (after_required_capabilities b a) (after_participation_constraints b a)
        (same_option_lem same_texts same_texts_lem b.participation_constraints
          a.participation_constraints)
        (ap (λ z. record (after_required_capabilities b a) { participation_constraints = z })) refl
    ∙ apply_report (same_option str_eq b.contract_period a.contract_period) b.contract_period
        a.contract_period (contract_period b.contract_period a.contract_period) be.contract_period
        ae.contract_period _ (after_participation_constraints b a) (after_contract_period b a)
        (same_option_lem str_eq same_text b.contract_period a.contract_period)
        (ap (λ z. record (after_participation_constraints b a) { contract_period = z })) refl
