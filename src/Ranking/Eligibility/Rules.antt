-- ===== src/Ranking/Eligibility/Rules.antt =====
-- Each group of rules of apps/api/app/ranking/eligibility.py, against a description without findings.
use mathlib.Core.List.{Memᴰ}
use procure_delta.Prelude.{
  arith, ◌≡◌, refl, sym, ap, ◌∙◌, ◌⊎◌, String, Bool, true, false, ◌&&◌, ◌||◌, Option, none, some,
  List, [], ◌∷◌, str_eq, any, is_some, All, Bool-cases, inl, inr, eq_iff, eq_refl,
}
use procure_delta.Prelude.Int.{ℤ}
use procure_delta.Lifecycle.Candidate.{is_empty}
use procure_delta.Ranking.Claims.{EvidenceClaim, TextValue, TextRules}
use procure_delta.Ranking.Eligibility.{
  Findings, region_findings, serves, below, above, bound_findings, bounded_findings,
  amount_findings, missing_certifications, certification_findings, text_values, mentions,
  keyword_failure, exclusions,
}
use procure_delta.Ranking.Eligibility.Search.{
  any-Mem, Mem-any, any-All, All-any, empty-append, Mem-nonempty,
}

-- A text of the list that is the same once normalised.
abbrev pub HasText : TextRules → String → List String → Type 0
HasText t s xs = (x : String) × Memᴰ x xs × (t.norm x ≡ t.norm s)

-- One of the opportunity's regions is known to be served.
abbrev pub IsServed : TextRules → List String → Option (EvidenceClaim (List String)) → Type 0
IsServed t served regions =
    (claim : EvidenceClaim (List String)) × (regions ≡ some claim)
    × ((r : String) × Memᴰ r claim.value × HasText t r served)

-- The amount lies within the bounds, in the profile's currency, or there are none.
abbrev pub IsWithin :
    TextRules
    → Option ℤ
    → Option ℤ
    → Option String
    → Option (EvidenceClaim ℤ)
    → Option (EvidenceClaim String)
    → Type 0
IsWithin t low high k amount currency =
    ((low ≡ none) × (high ≡ none))
    ⊎ ((a : EvidenceClaim ℤ) × (c : EvidenceClaim String) × (amount ≡ some a)
        × (currency ≡ some c)
        × (k ≡ some (t.upper c.value))
        × (below a.value low ≡ false)
        × (above a.value high ≡ false))

-- The certifications that are required are known, and owned.
abbrev pub IsCertified : TextRules → List String → Option (EvidenceClaim (List String)) → Type 0
IsCertified t owned required =
    (claim : EvidenceClaim (List String)) × (required ≡ some claim)
    × All (λ item. HasText t item owned) claim.value

-- No text field mentions an excluded keyword.
abbrev pub IsUnmentioned : TextRules → List String → List (EvidenceClaim TextValue) → Type 0
IsUnmentioned t keywords claims =
    All
      (λ k.
        All (λ c. All (λ v. t.occurs (t.norm k) (t.norm v) ≡ false) (text_values c.value)) claims)
      keywords

-- A group of rules that found nothing.
abbrev pub is_clear : Findings → Bool
is_clear f = is_empty f.0 && is_empty f.1

bounds-clear :
    (low high : Option ℤ) (a : EvidenceClaim ℤ)
    → is_clear (bound_findings low high a, []) ≡ true
    → (below a.value low ≡ false) × (above a.value high ≡ false)
unfolding bound_findings
bounds-clear low high a h = elim (Bool-cases (below a.value low)) [
  | inl e ↦ let bad = rw e at h in cc
  | inr e ↦ elim (Bool-cases (above a.value high)) [
    | inl f ↦ let bad = rw (e, f) at h in cc
    | inr f ↦ (e, f)
  ]
]

both_true : (b c : Bool) → (b && c) ≡ true → (b ≡ true) × (c ≡ true)
both_true true c h = (refl, h)
both_true false c h = cc

module _ (t : TextRules) where
  has_text :
      (s : String) (xs : List String)
      → any (λ x. str_eq (t.norm x) (t.norm s)) xs ≡ true
      → HasText t s xs
  has_text s xs h =
      let (x, m, e) = any-Mem (λ x. str_eq (t.norm x) (t.norm s)) xs h in
      (x, m, (eq_iff (t.norm x) (t.norm s)).0 e)

  text_found :
      (s : String) (xs : List String)
      → HasText t s xs
      → any (λ x. str_eq (t.norm x) (t.norm s)) xs ≡ true
  text_found s xs (x, m, e) =
      Mem-any (λ x. str_eq (t.norm x) (t.norm s)) xs x m ((eq_iff (t.norm x) (t.norm s)).1 e)

  pub clear-IsServed :
      (served : List String) (regions : Option (EvidenceClaim (List String)))
      → is_clear (region_findings t served regions) ≡ true
      → IsServed t served regions
  unfolding region_findings
  clear-IsServed served none h = cc
  clear-IsServed served (some claim) h = elim (Bool-cases (is_empty served)) [
    | inl e ↦ let bad = rw e at h in cc
    | inr e ↦ elim (Bool-cases (serves t served claim.value)) [
      | inl f ↦
          let (r, m, g) =
            any-Mem (λ r. any (λ s. str_eq (t.norm s) (t.norm r)) served) claim.value f in
          (claim, refl, (r, m, has_text r served g))
      | inr f ↦ let bad = rw (e, f) at h in cc
    ]
  ]

  pub IsServed-clear :
      (served : List String) (regions : Option (EvidenceClaim (List String)))
      → IsServed t served regions
      → is_clear (region_findings t served regions) ≡ true
  unfolding region_findings
  IsServed-clear served regions (claim, e, (r, m, (s, m', same))) =
      let f : serves t served claim.value ≡ true =
        Mem-any (λ r. any (λ s. str_eq (t.norm s) (t.norm r)) served) claim.value r m
          (text_found r served (s, m', same)) in
      rw (e, Mem-nonempty served s m', f) refl

  bounded-IsWithin :
      (low high : Option ℤ) (k : Option String) (amount : Option (EvidenceClaim ℤ))
      (currency : Option (EvidenceClaim String))
      → is_clear (bounded_findings t low high k amount currency) ≡ true
      → (a : EvidenceClaim ℤ) × (c : EvidenceClaim String) × (amount ≡ some a)
        × (currency ≡ some c)
        × (k ≡ some (t.upper c.value))
        × (below a.value low ≡ false)
        × (above a.value high ≡ false)
  unfolding bounded_findings bound_findings
  bounded-IsWithin low high k none currency h = cc
  bounded-IsWithin low high k (some a) none h = cc
  bounded-IsWithin low high none (some a) (some c) h = cc
  bounded-IsWithin low high (some k) (some a) (some c) h =
      elim (Bool-cases (str_eq (t.upper c.value) k)) [
        | inr e ↦ let bad = rw e at h in cc
        | inl e ↦
            let bounds = bounds-clear low high a (rw e at h) in
            (a, c, refl, refl, ap some (sym ((eq_iff (t.upper c.value) k).0 e)), bounds.0, bounds.1)
      ]

  pub clear-IsWithin :
      (low high : Option ℤ) (k : Option String) (amount : Option (EvidenceClaim ℤ))
      (currency : Option (EvidenceClaim String))
      → is_clear (amount_findings t low high k amount currency) ≡ true
      → IsWithin t low high k amount currency
  unfolding amount_findings bounded_findings bound_findings
  clear-IsWithin low high k amount currency h = elim (Bool-cases (is_some low || is_some high)) [
    | inr free ↦ inl (ground arith)
    | inl bound ↦ inr (bounded-IsWithin low high k amount currency (rw bound at h))
  ]

  pub IsWithin-clear :
      (low high : Option ℤ) (k : Option String) (amount : Option (EvidenceClaim ℤ))
      (currency : Option (EvidenceClaim String))
      → IsWithin t low high k amount currency
      → is_clear (amount_findings t low high k amount currency) ≡ true
  unfolding amount_findings bounded_findings bound_findings
  IsWithin-clear low high k amount currency (inl (a, b)) = rw (a, b) refl
  IsWithin-clear low high k amount currency (inr (a, c, ea, ec, ek, lo, hi)) =
      elim (Bool-cases (is_some low || is_some high)) [
        | inr free ↦ rw free refl
        | inl bound ↦
            let same : str_eq (t.upper c.value) (t.upper c.value) ≡ true =
              eq_refl (t.upper c.value) in
            rw (bound, ea, ec, ek, same, lo, hi) refl
      ]

  owned-All :
      (owned xs : List String)
      → is_empty (missing_certifications t owned xs) ≡ true
      → All (λ item. HasText t item owned) xs
  owned-All owned [] h = tt
  owned-All owned (x ∷ xs) h = elim (Bool-cases (any (λ o. str_eq (t.norm o) (t.norm x)) owned)) [
    | inl e ↦ (has_text x owned e, owned-All owned xs (rw e at h))
    | inr e ↦ let bad = rw e at h in cc
  ]

  none_missing :
      (owned xs : List String)
      → All (λ item. HasText t item owned) xs
      → is_empty (missing_certifications t owned xs) ≡ true
  none_missing owned [] h = refl
  none_missing owned (x ∷ xs) h = rw (text_found x owned h.0) (none_missing owned xs h.1)

  pub clear-IsCertified :
      (owned : List String) (required : Option (EvidenceClaim (List String)))
      → is_clear (certification_findings t owned required) ≡ true
      → IsCertified t owned required
  unfolding certification_findings
  clear-IsCertified owned none h = cc
  clear-IsCertified owned (some claim) h = (
    claim,
    refl,
    owned-All owned claim.value
        (elim (Bool-cases (is_empty (missing_certifications t owned claim.value))) [
          | inl e ↦ e
          | inr e ↦ let bad = rw e at h in cc
        ]),
  )

  pub IsCertified-clear :
      (owned : List String) (required : Option (EvidenceClaim (List String)))
      → IsCertified t owned required
      → is_clear (certification_findings t owned required) ≡ true
  unfolding certification_findings
  IsCertified-clear owned required (claim, e, all) = rw (e, none_missing owned claim.value all) refl

  unmentioned :
      (k : String) (claims : List (EvidenceClaim TextValue))
      → is_empty (keyword_failure t k claims) ≡ true
      → All (λ c. All (λ v. t.occurs (t.norm k) (t.norm v) ≡ false) (text_values c.value)) claims
  unfolding keyword_failure
  unmentioned k [] h = tt
  unmentioned k (c ∷ cs) h = elim (Bool-cases (mentions t k c)) [
    | inl e ↦ let bad = rw e at h in cc
    | inr e ↦ (any-All _ (text_values c.value) e, unmentioned k cs (rw e at h))
  ]

  unmentioned_clear :
      (k : String) (claims : List (EvidenceClaim TextValue))
      → All (λ c. All (λ v. t.occurs (t.norm k) (t.norm v) ≡ false) (text_values c.value)) claims
      → is_empty (keyword_failure t k claims) ≡ true
  unfolding keyword_failure
  unmentioned_clear k [] h = refl
  unmentioned_clear k (c ∷ cs) h =
      let quiet : mentions t k c ≡ false =
        All-any (λ v. t.occurs (t.norm k) (t.norm v)) (text_values c.value) h.0 in
      rw quiet (unmentioned_clear k cs h.1)

  pub clear-IsUnmentioned :
      (keywords : List String) (claims : List (EvidenceClaim TextValue))
      → is_empty (exclusions t keywords claims) ≡ true
      → IsUnmentioned t keywords claims
  unfolding exclusions
  clear-IsUnmentioned [] claims h = tt
  clear-IsUnmentioned (k ∷ ks) claims h =
      let parts =
        both_true _ _
          (sym (empty-append (keyword_failure t k claims) (exclusions t ks claims)) ∙ h) in
      (unmentioned k claims parts.0, clear-IsUnmentioned ks claims parts.1)

  pub IsUnmentioned-clear :
      (keywords : List String) (claims : List (EvidenceClaim TextValue))
      → IsUnmentioned t keywords claims
      → is_empty (exclusions t keywords claims) ≡ true
  unfolding exclusions
  IsUnmentioned-clear [] claims h = refl
  IsUnmentioned-clear (k ∷ ks) claims h =
      let first = unmentioned_clear k claims h.0 in
      let rest = IsUnmentioned-clear ks claims h.1 in
      empty-append (keyword_failure t k claims) (exclusions t ks claims) ∙ rw (first, rest) refl
