-- ===== src/Lifecycle/Tests.antt =====
-- The linker of apps/api/app/lifecycle/linker.py on a tender, its pre-specification and its award.
use mathlib.Core.List.{Memᴰ}
use procure_delta.Prelude.{ap, ◌∙◌, ◌≡◌, refl, sym, ◌≤◌, true, none, some, List, [], ◌∷◌, str_eq}
use procure_delta.Prelude.Int.{pos}
use procure_delta.Lifecycle.Candidate.{
  LinkCandidate, official_reference, normalized_identifier, reference_evidence, identifier_evidence,
  resolved, unresolved, ambiguous_normalized_identifier, Matching, forward, stage_order, least,
}
use procure_delta.Lifecycle.Linker.{link_candidate, link_official, link_identifier, select_unique}
use procure_delta.Lifecycle.Linker.Forward.{parent_forward}
use procure_delta.Lifecycle.Linker.Unique.{Justified, link_unique}
use procure_delta.Lifecycle.Linker.Lineage.{Lineage, Distinct, Lineage-le}

abbrev plain : Matching
plain = record { normalized_text = λ s. s; similar = str_eq; comparator = none }

abbrev notice : LinkCandidate
notice = record {
  opportunity_id = 1;
  source_id = 7;
  source_record_id = "N-1";
  lifecycle_stage = "pre-specification";
  title = "Road repair";
  buyer_name = "City";
  estimated_amount = some (pos 500);
  published_at = some 100;
  official_references = [];
  normalized_identifiers = record { scheme = "notice"; value = "20260001" } ∷ [];
}

abbrev tender : LinkCandidate
tender = record notice { opportunity_id = 2; source_record_id = "T-1"; lifecycle_stage = "tender" }

abbrev award : LinkCandidate
award = record notice {
  opportunity_id = 3;
  source_record_id = "A-1";
  lifecycle_stage = "award";
  official_references =
      record { source_id = 7; source_record_id = "T-1"; lifecycle_stage = "tender" } ∷ [];
}

abbrev both : List LinkCandidate
both = notice ∷ tender ∷ []

award_link :
    link_candidate plain award both
    ≡ resolved 2 official_reference 10000 (reference_evidence 7 "T-1")
unfolding link_candidate link_official select_unique forward stage_order
award_link = refl

tender_link :
    link_candidate plain tender both
    ≡ resolved 1 normalized_identifier 9900
        (identifier_evidence 7 (some (record { scheme = "notice"; value = "20260001" })))
unfolding link_candidate link_identifier select_unique forward stage_order least
tender_link = refl

-- Two candidates that share an identifier with the record leave it unlinked.
tied :
    link_candidate plain (record award { official_references = [] }) both
    ≡ unresolved ambiguous_normalized_identifier
unfolding link_candidate link_identifier select_unique forward stage_order
tied = refl

parent_forward_example :
    (p : LinkCandidate) × (Memᴰ p both × (forward p award ≡ true)) × (2 ≡ p.opportunity_id)
parent_forward_example = parent_forward plain award both award_link

link_unique_example :
    Justified award.official_references plain award both 2 10000 official_reference
link_unique_example = link_unique plain award both award_link

both-Distinct : Distinct both
both-Distinct p q (Memᴰ.head a) (Memᴰ.head b) same = a ∙ sym b
both-Distinct p q (Memᴰ.tail (Memᴰ.head a)) (Memᴰ.tail (Memᴰ.head b)) same = a ∙ sym b
both-Distinct p q (Memᴰ.head a) (Memᴰ.tail (Memᴰ.head b)) same =
    let left : p.opportunity_id ≡ 1 = ap (λ c. c.opportunity_id) a in
    let right : q.opportunity_id ≡ 2 = ap (λ c. c.opportunity_id) b in cc
both-Distinct p q (Memᴰ.tail (Memᴰ.head a)) (Memᴰ.head b) same =
    let left : p.opportunity_id ≡ 2 = ap (λ c. c.opportunity_id) a in
    let right : q.opportunity_id ≡ 1 = ap (λ c. c.opportunity_id) b in cc
both-Distinct p q (Memᴰ.head a) (Memᴰ.tail (Memᴰ.tail none_left)) same = elim none_left [ ]
both-Distinct p q (Memᴰ.tail (Memᴰ.head a)) (Memᴰ.tail (Memᴰ.tail none_left)) same =
    elim none_left [ ]
both-Distinct p q (Memᴰ.tail (Memᴰ.tail none_left)) _ same = elim none_left [ ]

award-Lineage : Lineage plain both award 2
award-Lineage = (
  tender,
  (Memᴰ.tail (Memᴰ.head refl), (_, _, _, award_link)),
  (notice, (Memᴰ.head refl, (_, _, _, tender_link)), tt),
)

Lineage-le_example : 2 ≤ 4
Lineage-le_example = Lineage-le plain both both-Distinct 2 award award-Lineage
