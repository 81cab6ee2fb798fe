-- ===== src/Lifecycle/Linker.antt =====
-- `link_candidate` of apps/api/app/lifecycle/linker.py: the four ways to find a parent, each of which
-- leaves a tie unresolved.
pub mod Forward
pub mod Unique
pub mod Lineage
use Prim.Native.Nat.{max, Ordering}
use Prim.Native.String
use procure_delta.Prelude.{
  ℕ, zero, suc, ◌+◌, ◌-◌, ◌*◌, String, Bool, true, false, not, ◌&&◌, ◌||◌, Option, none, some, List,
  [], ◌∷◌, ◌++◌, map, ltb, leb, ◌==◌, str_eq, if◌then◌else◌, any, select, length, is_some,
}
use procure_delta.Prelude.Int.{ℤ, pos, negsuc, eq_ℤ}
use procure_delta.Lifecycle.Candidate.{
  OfficialReference, Identifier, LinkCandidate, Method, official_reference, normalized_identifier,
  fingerprint, semantic, Evidence, reference_evidence, identifier_evidence, fields_evidence,
  bounded_evidence, Reason, incompatible_stage, official_reference_not_found, no_conservative_match,
  ambiguous_official_reference, ambiguous_normalized_identifier, ambiguous_fingerprint,
  ambiguous_semantic, LinkDecision, resolved, unresolved, Matching, stage_order, forward, shared,
  is_empty, least, same_amount, near_in_time,
}

-- `_select_unique` on the matches that are compatible.
abbrev pub only :
    Method → ℕ → (LinkCandidate → Evidence) → Reason → List LinkCandidate → LinkDecision
only method confidence evidence ambiguous [] = unresolved incompatible_stage
only method confidence evidence ambiguous (c ∷ []) =
    resolved c.opportunity_id method confidence (evidence c)
only method confidence evidence ambiguous (c ∷ d ∷ cs) = unresolved ambiguous

unfoldable pub select_unique :
    List LinkCandidate
    → LinkCandidate
    → Method
    → ℕ
    → (LinkCandidate → Evidence)
    → Reason
    → LinkDecision
select_unique matches record' method confidence evidence ambiguous =
    only method confidence evidence ambiguous (select (λ item. forward item record') matches)

abbrev pub references_item : LinkCandidate → OfficialReference → Bool
references_item item r =
    (item.source_id == r.source_id)
    && str_eq item.source_record_id r.source_record_id
    && str_eq item.lifecycle_stage r.lifecycle_stage

-- The first branch of `link_candidate`, on the first reference and the others.
unfoldable pub link_official :
    LinkCandidate → List LinkCandidate → OfficialReference → List OfficialReference → LinkDecision
link_official r candidates first rest =
    let matches = select (λ item. any (references_item item) (first ∷ rest)) candidates in
    if ltb 1 (length (first ∷ rest)) || ltb 1 (length matches)
    then unresolved ambiguous_official_reference
    else if length matches == 0
    then unresolved official_reference_not_found
    else select_unique matches r official_reference 10000
        (λ _. reference_evidence first.source_id first.source_record_id)
        ambiguous_official_reference

unfoldable pub link_identifier : LinkCandidate → List LinkCandidate → LinkDecision
link_identifier r exact =
    select_unique exact r normalized_identifier 9900
      (λ c. identifier_evidence r.source_id (least (shared r.normalized_identifiers c)))
      ambiguous_normalized_identifier

-- The test of the fingerprint branch.
abbrev pub has_fingerprint : Matching → LinkCandidate → LinkCandidate → Bool
has_fingerprint m r item =
    (item.source_id == r.source_id)
    && m.similar (m.normalized_text item.title) (m.normalized_text r.title)
    && str_eq (m.normalized_text item.buyer_name) (m.normalized_text r.buyer_name)
    && same_amount item.estimated_amount r.estimated_amount
    && near_in_time item.published_at r.published_at

unfoldable pub link_fingerprint : LinkCandidate → List LinkCandidate → LinkDecision
link_fingerprint r matches =
    select_unique matches r fingerprint 8500
      (λ _. fields_evidence ("buyer_name" ∷ "title" ∷ "published_at" ∷ "estimated_amount" ∷ []))
      ambiguous_fingerprint

-- `sorted(…, key=opportunity_id)[:20]`
insert_by_id : LinkCandidate → List LinkCandidate → List LinkCandidate
insert_by_id c [] = c ∷ []
insert_by_id c (d ∷ ds) =
    if leb c.opportunity_id d.opportunity_id then c ∷ d ∷ ds else d ∷ insert_by_id c ds

pub sort_by_id : List LinkCandidate → List LinkCandidate
unfolding insert_by_id
sort_by_id [] = []
sort_by_id (c ∷ cs) = insert_by_id c (sort_by_id cs)

pub take : ℕ → List LinkCandidate → List LinkCandidate
take zero cs = []
take (suc n) [] = []
take (suc n) (c ∷ cs) = c ∷ take n cs

-- The scores in [0, 1], with their candidates; any other score is dropped.
abbrev pub bounded : Option ℤ → LinkCandidate → List (ℕ × LinkCandidate)
bounded none c = []
bounded (some (negsuc n)) c = []
bounded (some (pos n)) c = if leb n 10000 then (n, c) ∷ [] else []

unfoldable pub scored : (LinkCandidate → Option ℤ) → List LinkCandidate → List (ℕ × LinkCandidate)
scored score [] = []
scored score (c ∷ cs) = bounded (score c) c ++ scored score cs

unfoldable pub best_score : List (ℕ × LinkCandidate) → ℕ
best_score [] = 0
best_score ((n, c) ∷ rest) = max n (best_score rest)

abbrev pub choose_best : ℕ → List (ℕ × LinkCandidate) → LinkDecision
choose_best best [] = unresolved no_conservative_match
choose_best best ((_, c) ∷ []) = resolved c.opportunity_id semantic best bounded_evidence
choose_best best (_ ∷ _ ∷ _) = unresolved ambiguous_semantic

unfoldable pub link_semantic :
    Option (LinkCandidate → LinkCandidate → Option ℤ)
    → LinkCandidate
    → List LinkCandidate
    → LinkDecision
unfolding sort_by_id take
link_semantic none r candidates = unresolved no_conservative_match
link_semantic (some compare_to) r candidates =
    let eligible = take 20 (
      sort_by_id (select (λ item. (item.source_id == r.source_id) && forward item r) candidates)) in
    let scores = scored (compare_to r) eligible in
    let best = best_score scores in
    choose_best best (select (λ s. (s.0 == best) && leb 9500 s.0) scores)

-- From the fingerprint branch on.
unfoldable pub link_weak : Matching → LinkCandidate → List LinkCandidate → LinkDecision
link_weak m r candidates =
    let matches = select (has_fingerprint m r) candidates in
    if is_empty matches then link_semantic m.comparator r candidates else link_fingerprint r matches

-- The candidates that share an identifier with the record.
abbrev pub exact_matches : LinkCandidate → List LinkCandidate → List LinkCandidate
exact_matches r = select (λ item.
    (item.source_id == r.source_id) && not (is_empty (shared r.normalized_identifiers item)))

abbrev pub link_unreferenced : Matching → LinkCandidate → List LinkCandidate → LinkDecision
link_unreferenced m r candidates =
    if is_empty (exact_matches r candidates)
    then link_weak m r candidates
    else link_identifier r (exact_matches r candidates)

abbrev pub link_by_references :
    List OfficialReference → Matching → LinkCandidate → List LinkCandidate → LinkDecision
link_by_references [] m r candidates = link_unreferenced m r candidates
link_by_references (first ∷ rest) m r candidates = link_official r candidates first rest

unfoldable pub link_candidate : Matching → LinkCandidate → List LinkCandidate → LinkDecision
link_candidate m r candidates = link_by_references r.official_references m r candidates
