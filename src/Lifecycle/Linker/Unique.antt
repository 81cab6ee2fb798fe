-- ===== src/Lifecycle/Linker/Unique.antt =====
-- `link_candidate` of apps/api/app/lifecycle/linker.py is conservative: it names a parent only where
-- the first way to find one that applies leaves a single compatible candidate.
use mathlib.Core.Path.{subst}
use procure_delta.Prelude.{
  arith, ℕ, ◌≡◌, refl, ◌≤◌, true, false, Option, none, some, List, [], ◌∷◌, inl, inr, select, All,
  length, any, Bool-cases, Option-cases, ltb, leb, ◌==◌, ◌&&◌, ◌||◌,
}
use procure_delta.Prelude.Int.{ℤ, pos, negsuc}
use procure_delta.Lifecycle.Candidate.{
  OfficialReference, LinkCandidate, Method, official_reference, normalized_identifier, fingerprint,
  semantic, Evidence, bounded_evidence, Reason, LinkDecision, resolved, unresolved, Matching,
  forward, is_empty,
}
use procure_delta.Lifecycle.Linker.Forward.{select-All}
use procure_delta.Lifecycle.Linker.{
  only, select_unique, has_fingerprint, references_item, link_official, link_identifier,
  link_fingerprint, choose_best, link_semantic, scored, best_score, sort_by_id, take, link_weak,
  exact_matches, link_unreferenced, link_by_references, link_candidate,
}

-- One compatible candidate among the matches, and its identifier.
abbrev pub OnlyOne : LinkCandidate → List LinkCandidate → ℕ → Type 0
OnlyOne r matches id =
    (p : LinkCandidate) × (select (λ item. forward item r) matches ≡ p ∷ [])
    × (id ≡ p.opportunity_id)

-- The candidates that an official reference names.
abbrev pub referenced : List OfficialReference → List LinkCandidate → List LinkCandidate
referenced refs = select (λ item. any (references_item item) refs)

-- The scores that the semantic comparison gave: of the twenty eligible candidates with the smallest
-- identifiers.
abbrev pub semantic_scores :
    (LinkCandidate → LinkCandidate → Option ℤ)
    → LinkCandidate
    → List LinkCandidate
    → List (ℕ × LinkCandidate)
semantic_scores compare_to r cs =
    scored (compare_to r)
      (take 20 (sort_by_id (select (λ item. (item.source_id == r.source_id) && forward item r) cs)))

-- One candidate with the best of the scores, its identifier and that score.
abbrev pub OnlyBest :
    Option (LinkCandidate → LinkCandidate → Option ℤ)
    → LinkCandidate
    → List LinkCandidate
    → ℕ
    → ℕ
    → Type 0
OnlyBest comparator r cs id confidence =
    (compare_to : (LinkCandidate → LinkCandidate → Option ℤ)) × (p : LinkCandidate) × (comparator
      ≡ some compare_to)
    × (select (λ s. (s.0 == confidence) && leb 9500 s.0) (semantic_scores compare_to r cs)
        ≡ (confidence, p) ∷ [])
    × (confidence ≡ best_score (semantic_scores compare_to r cs))
    × (compare_to r p ≡ some (pos confidence))
    × (id ≡ p.opportunity_id)
    × (9500 ≤ confidence)

-- What stands behind a link, by its method; `refs` are the record's references.
abbrev pub Justified :
    List OfficialReference → Matching → LinkCandidate → List LinkCandidate → ℕ → ℕ → Method → Type 0
Justified refs m r cs id confidence official_reference =
    (length refs ≡ 1)
    × (length (referenced refs cs) ≡ 1)
    × OnlyOne r (referenced refs cs) id
    × (confidence ≡ 10000)
Justified refs m r cs id confidence normalized_identifier =
    (refs ≡ []) × OnlyOne r (exact_matches r cs) id × (confidence ≡ 9900)
Justified refs m r cs id confidence fingerprint =
    (refs ≡ [])
    × (exact_matches r cs ≡ [])
    × OnlyOne r (select (has_fingerprint m r) cs) id
    × (confidence ≡ 8500)
Justified refs m r cs id confidence semantic =
    (refs ≡ [])
    × (exact_matches r cs ≡ [])
    × (select (has_fingerprint m r) cs ≡ [])
    × OnlyBest m.comparator r cs id confidence

abbrev pub IsJustified :
    List OfficialReference → Matching → LinkCandidate → List LinkCandidate → LinkDecision → Type 0
IsJustified refs m r cs (unresolved _) = Unit
IsJustified refs m r cs (resolved id method confidence _) =
    Justified refs m r cs id confidence method

-- A property of a decision that `select_unique` takes.
only-case :
    (Q : LinkDecision → Type 0) (method : Method) (confidence : ℕ)
    (evidence : LinkCandidate → Evidence) (why : Reason) (cs : List LinkCandidate)
    → ((reason : Reason) → Q (unresolved reason))
    → ((p : LinkCandidate)
        → cs ≡ p ∷ []
        → Q (resolved p.opportunity_id method confidence (evidence p)))
    → Q (only method confidence evidence why cs)
only-case Q method confidence evidence why [] nothing parent = nothing _
only-case Q method confidence evidence why (c ∷ []) nothing parent = parent c refl
only-case Q method confidence evidence why (c ∷ d ∷ cs) nothing parent = nothing why

empty-eq : {A : Type 0} (xs : List A) → is_empty xs ≡ true → xs ≡ []
empty-eq [] h = refl
empty-eq (x ∷ xs) h = cc

one_each : (k n : ℕ) → (ltb 1 k || ltb 1 n) ≡ false → (n == 0) ≡ false → 1 ≤ k → (k ≡ 1) × (n ≡ 1)
one_each k n few some_match h = (ground arith, ground arith)

-- Every score is what the comparison answered.
scored-All :
    (score : LinkCandidate → Option ℤ) (cs : List LinkCandidate)
    → All (λ s. score s.1 ≡ some (pos s.0)) (scored score cs)
unfolding scored
scored-All score [] = tt
scored-All score (c ∷ cs) = elim (Option-cases (score c)) [
  | inl e ↦ rw e (scored-All score cs)
  | inr (negsuc n, e) ↦ rw e (scored-All score cs)
  | inr (pos n, e) ↦ elim (Bool-cases (leb n 10000)) [
    | inl fits ↦ rw (e, fits) (e, scored-All score cs)
    | inr out ↦ rw (e, out) (scored-All score cs)
  ]
]

-- What the only one of the best scores that reach the bound says.
choose_best-case :
    (Q : LinkDecision → Type 0) (score : LinkCandidate → Option ℤ) (best : ℕ)
    (xs : List (ℕ × LinkCandidate))
    → All (λ s. (score s.1 ≡ some (pos s.0)) × (((s.0 == best) && leb 9500 s.0) ≡ true)) xs
    → ((reason : Reason) → Q (unresolved reason))
    → ((p : LinkCandidate) (e : Evidence)
        → xs ≡ (best, p) ∷ []
        → score p ≡ some (pos best)
        → 9500 ≤ best
        → Q (resolved p.opportunity_id semantic best e))
    → Q (choose_best best xs)
choose_best-case Q score best [] h nothing parent = nothing _
choose_best-case Q score best ((n, c) ∷ []) h nothing parent =
    let reached : ((n == best) && leb 9500 n) ≡ true = h.0.1 in
    let same : n ≡ best = ground arith in
    let answered : score c ≡ some (pos n) = h.0.0 in
    parent c bounded_evidence (rw same refl) (rw same at answered) (ground arith)
choose_best-case Q score best (_ ∷ _ ∷ _) h nothing parent = nothing _

module _ (m : Matching) (r : LinkCandidate) (cs : List LinkCandidate) where
  semantic-IsJustified :
      exact_matches r cs ≡ []
      → select (has_fingerprint m r) cs ≡ []
      → (comparator : Option (LinkCandidate → LinkCandidate → Option ℤ)) → m.comparator ≡ comparator
      → IsJustified [] m r cs (link_semantic comparator r cs)
  unfolding link_semantic
  semantic-IsJustified b c none given = tt
  semantic-IsJustified b c (some compare_to) given =
      let scores = semantic_scores compare_to r cs in
      choose_best-case (IsJustified [] m r cs) (compare_to r) (best_score scores) _
        (select-All (λ s. compare_to r s.1 ≡ some (pos s.0)) _ scores (scored-All (compare_to r) _))
        (λ _. tt)
        (λ p e one answered n. (refl, b, c, (compare_to, p, given, one, refl, answered, refl, n)))

  weak-IsJustified : exact_matches r cs ≡ [] → IsJustified [] m r cs (link_weak m r cs)
  unfolding link_weak link_fingerprint select_unique
  weak-IsJustified b = elim (Bool-cases (is_empty (select (has_fingerprint m r) cs))) [
    | inl e ↦ rw e (semantic-IsJustified b (empty-eq _ e) m.comparator refl)
    | inr e ↦ rw e (
        only-case (IsJustified [] m r cs) _ _ _ _ _ (λ _. tt)
          (λ p one. (refl, b, (p, one, refl), refl)))
  ]

  unreferenced-IsJustified : IsJustified [] m r cs (link_unreferenced m r cs)
  unfolding link_identifier select_unique
  unreferenced-IsJustified = elim (Bool-cases (is_empty (exact_matches r cs))) [
    | inl e ↦ rw e (weak-IsJustified (empty-eq _ e))
    | inr e ↦ rw e (
        only-case (IsJustified [] m r cs) _ _ _ _ _ (λ _. tt)
          (λ p one. (refl, (p, one, refl), refl)))
  ]

  official_matched :
      (first : OfficialReference) (rest : List OfficialReference)
      → (ltb 1 (length (first ∷ rest)) || ltb 1 (length (referenced (first ∷ rest) cs))) ≡ false
      → (length (referenced (first ∷ rest) cs) == 0) ≡ false
      → (length (first ∷ rest) ≡ 1) × (length (referenced (first ∷ rest) cs) ≡ 1)
  official_matched first rest few any_match =
      let n = length (referenced (first ∷ rest) cs) in
      let k = length (first ∷ rest) in one_each k n few any_match (ground arith)

  official-IsJustified :
      (first : OfficialReference) (rest : List OfficialReference)
      → IsJustified (first ∷ rest) m r cs (link_official r cs first rest)
  unfolding link_official select_unique
  official-IsJustified first rest =
      elim (Bool-cases
        (ltb 1 (length (first ∷ rest)) || ltb 1 (length (referenced (first ∷ rest) cs)))) [
          | inl e ↦ rw e tt
          | inr few ↦ elim (Bool-cases (length (referenced (first ∷ rest) cs) == 0)) [
            | inl e ↦ rw (few, e) tt
            | inr some_match ↦
                let counts = official_matched first rest few some_match in
                rw (few, some_match)
                  (only-case (IsJustified (first ∷ rest) m r cs) _ _ _ _ _ (λ _. tt)
                    (λ p one. (counts.0, counts.1, (p, one, refl), refl)))
          ]
        ]

  by_references-IsJustified :
      (refs : List OfficialReference) → IsJustified refs m r cs (link_by_references refs m r cs)
  by_references-IsJustified [] = unreferenced-IsJustified
  by_references-IsJustified (first ∷ rest) = official-IsJustified first rest

-- Where `link_candidate` names a parent, the method it reports is the first that applies and left one
-- compatible candidate: a single official reference that matches a single candidate; or, without
-- references, one compatible candidate among those that share an identifier; or, without such
-- candidates, one compatible fingerprint match; or, without any of these, the only candidate whose
-- semantic score is the best of the scores given to the twenty eligible candidates with the smallest
-- identifiers, a score of at least 0.95. The parent is that candidate. The confidence is the
-- method's, and for a semantic match it is that score.
pub link_unique :
    (m : Matching) (r : LinkCandidate) (cs : List LinkCandidate) {id : ℕ} {method : Method}
    {confidence : ℕ} {evidence : Evidence}
    → link_candidate m r cs ≡ resolved id method confidence evidence
    → Justified r.official_references m r cs id confidence method
link_unique m r cs h =
    subst (IsJustified r.official_references m r cs) h
      (unfold link_candidate in (by_references-IsJustified m r cs r.official_references))
