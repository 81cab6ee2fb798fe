-- ===== src/Lifecycle/Linker/Lineage.antt =====
-- Links of apps/api/app/lifecycle/linker.py, followed from record to parent.
use mathlib.Core.Path.{sym, subst}
use mathlib.Core.List.{Memᴰ}
use procure_delta.Prelude.{arith, ℕ, zero, suc, ◌≡◌, ◌≤◌, ◌<◌, true, get_or, List}
use procure_delta.Lifecycle.Candidate.{
  LinkCandidate, Method, Evidence, resolved, Matching, stage_order, forward,
}
use procure_delta.Lifecycle.Linker.{link_candidate}
use procure_delta.Lifecycle.Linker.Forward.{parent_forward}

-- The record is linked to a candidate.
abbrev pub Links : Matching → List LinkCandidate → LinkCandidate → LinkCandidate → Type 0
Links m cs r p =
    Memᴰ p cs
    × ((method : Method) × (confidence : ℕ) × (evidence : Evidence) × (link_candidate m r cs
          ≡ resolved p.opportunity_id method confidence evidence))

-- A chain of n links from a record.
abbrev pub Lineage : Matching → List LinkCandidate → LinkCandidate → ℕ → Type 0
Lineage m cs r zero = Unit
Lineage m cs r (suc n) = (p : LinkCandidate) × Links m cs r p × Lineage m cs p n

-- Each candidate has its own identifier.
abbrev pub Distinct : List LinkCandidate → Type 0
Distinct cs =
    (p q : LinkCandidate) → Memᴰ p cs → Memᴰ q cs → p.opportunity_id ≡ q.opportunity_id → p ≡ q

abbrev depth : LinkCandidate → ℕ
depth c = get_or 0 (stage_order c.lifecycle_stage)

stage_order_le : (s : _) → get_or 0 (stage_order s) ≤ 4
unfolding stage_order
stage_order_le s = ground arith

forward-depth : (p r : LinkCandidate) → forward p r ≡ true → depth p < depth r
unfolding forward
forward-depth p r h = ground arith

link_depth :
    (m : Matching) (cs : List LinkCandidate) (r p : LinkCandidate)
    → Distinct cs
    → Links m cs r p
    → depth p < depth r
link_depth m cs r p distinct (here, (method, confidence, evidence, h)) =
    let (q, (there, ahead), same) = parent_forward m r cs h in
    subst (λ c. depth c < depth r) (distinct q p there here (sym same)) (forward-depth q r ahead)

Lineage-depth :
    (m : Matching) (cs : List LinkCandidate)
    → Distinct cs
    → (n : ℕ) (r : LinkCandidate) → Lineage m cs r n
    → n ≤ depth r
Lineage-depth m cs distinct zero r chain = ground arith
Lineage-depth m cs distinct (suc n) r (p, link, chain) =
    let below = link_depth m cs r p distinct link in
    let rest = Lineage-depth m cs distinct n p chain in omega arith

-- Where the candidates have distinct identifiers, a chain of links from a record to its parent, the
-- parent's parent and so on has at most four links: the links make no cycle.
pub Lineage-le :
    (m : Matching) (cs : List LinkCandidate)
    → Distinct cs
    → (n : ℕ) (r : LinkCandidate) → Lineage m cs r n
    → n ≤ 4
Lineage-le m cs distinct n r chain =
    let deep = Lineage-depth m cs distinct n r chain in
    let shallow = stage_order_le r.lifecycle_stage in omega arith
