-- ===== src/Lifecycle/Linker/Forward.antt =====
-- `link_candidate` of apps/api/app/lifecycle/linker.py names a candidate it was given, of an earlier
-- stage than the record's.
use mathlib.Core.Path.{subst}
use mathlib.Core.List.{Memᴰ}
use procure_delta.Prelude.{
  arith, ℕ, zero, suc, ◌≡◌, refl, Bool, true, false, Option, none, some, List, [], ◌∷◌, ◌++◌, inl,
  inr, All, All-imp, select, length, any, Bool-cases, ltb, leb, ◌==◌, ◌&&◌, ◌||◌, if◌then◌else◌,
}
use procure_delta.Prelude.Int.{ℤ, pos, negsuc}
use procure_delta.Lifecycle.Candidate.{
  OfficialReference, LinkCandidate, Method, Evidence, Reason, LinkDecision, resolved, unresolved,
  Matching, forward, is_empty,
}
use procure_delta.Lifecycle.Linker.{
  only, select_unique, has_fingerprint, references_item, link_official, link_identifier,
  link_fingerprint, insert_by_id, sort_by_id, take, bounded, scored, choose_best, link_semantic,
  link_weak, exact_matches, link_unreferenced, link_by_references, link_candidate,
}

-- A decision that names no parent, or one with a property.
abbrev pub Parent : (LinkCandidate → Type 0) → LinkDecision → Type 0
Parent P (unresolved _) = Unit
Parent P (resolved id _ _ _) = (p : LinkCandidate) × P p × (id ≡ p.opportunity_id)

pub select-All :
    {A : Type 0} (P : A → Type 0) (t : A → Bool) (xs : List A)
    → All P xs
    → All (λ x. P x × (t x ≡ true)) (select t xs)
select-All P t [] h = tt
select-All P t (x ∷ xs) h = elim (Bool-cases (t x)) [
  | inl e ↦ rw e ((h.0, e), select-All P t xs h.1)
  | inr e ↦ rw e (select-All P t xs h.1)
]

pub members : {A : Type 0} (xs : List A) → All (λ x. Memᴰ x xs) xs
members [] = tt
members (x ∷ xs) = (
  Memᴰ.head refl,
  All-imp (λ y. Memᴰ y xs) (λ y. Memᴰ y (x ∷ xs)) (λ y. Memᴰ.tail) xs (members xs),
)

module _ (P : LinkCandidate → Type 0) where
  insert_by_id-All :
      (c : LinkCandidate) (cs : List LinkCandidate) → P c → All P cs → All P (insert_by_id c cs)
  unfolding insert_by_id
  insert_by_id-All c [] p h = (p, tt)
  insert_by_id-All c (d ∷ ds) p h = elim (Bool-cases (leb c.opportunity_id d.opportunity_id)) [
    | inl e ↦ rw e (p, h)
    | inr e ↦ rw e (h.0, insert_by_id-All c ds p h.1)
  ]

  sort_by_id-All : (cs : List LinkCandidate) → All P cs → All P (sort_by_id cs)
  unfolding sort_by_id
  sort_by_id-All [] h = tt
  sort_by_id-All (c ∷ cs) h = insert_by_id-All c (sort_by_id cs) h.0 (sort_by_id-All cs h.1)

  take-All : (n : ℕ) (cs : List LinkCandidate) → All P cs → All P (take n cs)
  unfolding take
  take-All zero cs h = tt
  take-All (suc n) [] h = tt
  take-All (suc n) (c ∷ cs) h = (h.0, take-All n cs h.1)

  bounded-All :
      (s : Option ℤ) (c : LinkCandidate) (rest : List (ℕ × LinkCandidate))
      → P c
      → All (λ x. P x.1) rest
      → All (λ x. P x.1) (bounded s c ++ rest)
  bounded-All none c rest p h = h
  bounded-All (some (negsuc n)) c rest p h = h
  bounded-All (some (pos n)) c rest p h = elim (Bool-cases (leb n 10000)) [
    | inl e ↦ rw e (p, h)
    | inr e ↦ rw e h
  ]

  scored-All :
      (score : LinkCandidate → Option ℤ) (cs : List LinkCandidate)
      → All P cs
      → All (λ x. P x.1) (scored score cs)
  unfolding scored
  scored-All score [] h = tt
  scored-All score (c ∷ cs) h =
      bounded-All (score c) c (scored score cs) h.0 (scored-All score cs h.1)

  choose_best-Parent :
      (best : ℕ) (xs : List (ℕ × LinkCandidate))
      → All (λ x. P x.1) xs
      → Parent P (choose_best best xs)
  choose_best-Parent best [] h = tt
  choose_best-Parent best ((n, c) ∷ []) h = (c, h.0, refl)
  choose_best-Parent best (_ ∷ _ ∷ _) h = tt

  only-Parent :
      (method : Method) (confidence : ℕ) (evidence : LinkCandidate → Evidence) (why : Reason)
      (cs : List LinkCandidate)
      → All P cs
      → Parent P (only method confidence evidence why cs)
  only-Parent method confidence evidence why [] h = tt
  only-Parent method confidence evidence why (c ∷ []) h = (c, h.0, refl)
  only-Parent method confidence evidence why (c ∷ d ∷ cs) h = tt

-- A candidate of an earlier stage.
abbrev Earlier : (LinkCandidate → Type 0) → LinkCandidate → LinkCandidate → Type 0
Earlier P r p = P p × (forward p r ≡ true)

module _ (P : LinkCandidate → Type 0) (r : LinkCandidate) where
  unique-Parent :
      (cs : List LinkCandidate) (method : Method) (confidence : ℕ)
      (evidence : LinkCandidate → Evidence) (why : Reason)
      → All P cs
      → Parent (Earlier P r) (select_unique cs r method confidence evidence why)
  unfolding select_unique
  unique-Parent cs method confidence evidence why h =
      only-Parent (Earlier P r) method confidence evidence why (select (λ item. forward item r) cs)
        (select-All P (λ item. forward item r) cs h)

  branch-Parent :
      (b : Bool) (x y : LinkDecision)
      → Parent (Earlier P r) x
      → Parent (Earlier P r) y
      → Parent (Earlier P r) (if b then x else y)
  branch-Parent true x y h k = h
  branch-Parent false x y h k = k

  near-All :
      (cs : List LinkCandidate)
      → All P cs
      → All (Earlier P r) (select (λ item. (item.source_id == r.source_id) && forward item r) cs)
  near-All cs h =
      All-imp _ (Earlier P r) (λ c e. (e.0, (ground arith))) _
        (select-All P (λ item. (item.source_id == r.source_id) && forward item r) cs h)

  weaken :
      {A : Type 0} (Q : A → Type 0) (t : A → Bool) (xs : List A) → All Q xs → All Q (select t xs)
  weaken Q t xs h = All-imp _ Q (λ x e. e.0) (select t xs) (select-All Q t xs h)

  semantic-Parent :
      (compare_to : Option (LinkCandidate → LinkCandidate → Option ℤ)) (cs : List LinkCandidate)
      → All P cs
      → Parent (Earlier P r) (link_semantic compare_to r cs)
  unfolding link_semantic
  semantic-Parent none cs h = tt
  semantic-Parent (some compare_to) cs h = choose_best-Parent (Earlier P r) _ _ (
      weaken (λ s. Earlier P r s.1) _ _
        (scored-All (Earlier P r) (compare_to r) _
          (take-All (Earlier P r) 20 _ (sort_by_id-All (Earlier P r) _ (near-All cs h)))))

  weak-Parent :
      (m : Matching) (cs : List LinkCandidate) → All P cs → Parent (Earlier P r) (link_weak m r cs)
  unfolding link_weak link_fingerprint
  weak-Parent m cs h =
      branch-Parent (is_empty (select (has_fingerprint m r) cs)) _ _
        (semantic-Parent m.comparator cs h)
        (unique-Parent _ _ _ _ _ (weaken P (has_fingerprint m r) cs h))

  unreferenced-Parent :
      (m : Matching) (cs : List LinkCandidate)
      → All P cs
      → Parent (Earlier P r) (link_unreferenced m r cs)
  unfolding link_identifier
  unreferenced-Parent m cs h =
      branch-Parent (is_empty (exact_matches r cs)) _ _ (weak-Parent m cs h)
        (unique-Parent _ _ _ _ _ (weaken P _ cs h))

  official-Parent :
      (first : OfficialReference) (rest : List OfficialReference) (cs : List LinkCandidate)
      → All P cs
      → Parent (Earlier P r) (link_official r cs first rest)
  unfolding link_official
  official-Parent first rest cs h =
      let matches = select (λ item. any (references_item item) (first ∷ rest)) cs in
      branch-Parent (ltb 1 (length (first ∷ rest)) || ltb 1 (length matches)) _ _ tt
        (branch-Parent (length matches == 0) _ _ tt (unique-Parent _ _ _ _ _ (weaken P _ cs h)))

  by_references-Parent :
      (refs : List OfficialReference) (m : Matching) (cs : List LinkCandidate)
      → All P cs
      → Parent (Earlier P r) (link_by_references refs m r cs)
  by_references-Parent [] m cs h = unreferenced-Parent m cs h
  by_references-Parent (first ∷ rest) m cs h = official-Parent first rest cs h

-- A record that is linked to an identifier is linked to one of the given candidates, whose stage
-- comes before the record's and which is not the record.
pub parent_forward :
    (m : Matching) (r : LinkCandidate) (cs : List LinkCandidate) {id : ℕ} {method : Method}
    {confidence : ℕ} {evidence : Evidence}
    → link_candidate m r cs ≡ resolved id method confidence evidence
    → (p : LinkCandidate) × (Memᴰ p cs × (forward p r ≡ true)) × (id ≡ p.opportunity_id)
parent_forward m r cs h = subst (Parent (Earlier (λ p. Memᴰ p cs) r)) h (
    unfold link_candidate in
    (by_references-Parent (λ p. Memᴰ p cs) r r.official_references m cs (members cs)))
