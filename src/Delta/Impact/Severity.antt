-- ===== src/Delta/Impact/Severity.antt =====
-- The level that apps/api/app/delta/rules.py gives to a set of changes.
use Prim.Native.Nat.{max}
use Prim.Native.String.{◌++◌ as join}
use procure_delta.Prelude.{
  arith, ℕ, ◌≤◌, ◌≡◌, refl, sym, ap, ◌∙◌, String, Bool, true, false, not, Option, none, some, List,
  [], ◌∷◌, ◌++◌, str_eq, if◌then◌else◌, any, All, Bool-cases, inl, inr, eq_iff,
}
use procure_delta.Lifecycle.Candidate.{is_empty}
use procure_delta.Prelude.Int.{ltb_ℤ}
use procure_delta.Delta.Impact.{
  Money, Kind, added, removed, replaced, Change, attachments, budget, closes_at, regions,
  required_certifications, required_capabilities, participation_constraints, contract_period,
  Reasons, put_reason, put_reasons, all_reasons, attachment_reasons, change_reasons, when_known,
  budget_reasons, deadline_reasons, is_earlier, region_reasons, minus, requirement_reasons, worst,
  level_of, classify_impact,
}

-- The severity that each code has wherever it is given.
abbrev code_severity : String → ℕ
code_severity code =
    if any (str_eq code) ("attachment_added" ∷ [])
    then 0
    else if any (str_eq code) (
        "deadline_earlier" ∷ "region_restriction_added" ∷ "region_restriction_changed"
        ∷ "certification_added" ∷ "capability_added" ∷ "material_clause_changed" ∷ [])
    then 2
    else 1

abbrev Fits : String × ℕ → Type 0
Fits r = (r.1 ≡ code_severity r.0) × (r.1 ≤ 2)

All-append : (xs ys : Reasons) → All Fits xs → All Fits ys → All Fits (xs ++ ys)
All-append [] ys h k = k
All-append (x ∷ xs) ys h k = (h.0, All-append xs ys h.1 k)

All-if : (b : Bool) (xs ys : Reasons) → All Fits xs → All Fits ys → All Fits (if b then xs else ys)
All-if true xs ys h k = h
All-if false xs ys h k = k

attachment-Fits : (ks : List Kind) → All Fits (attachment_reasons ks)
attachment-Fits [] = tt
attachment-Fits (added ∷ ks) = ((refl, omega arith), attachment-Fits ks)
attachment-Fits (removed ∷ ks) = ((refl, omega arith), attachment-Fits ks)
attachment-Fits (replaced ∷ ks) = ((refl, omega arith), attachment-Fits ks)

when_known-Fits :
    {A : Type 0} (field : String) (rule : A → A → Reasons)
    → 1 ≡ code_severity (join field "_became_unknown")
    → 1 ≡ code_severity (join field "_became_known")
    → ((x y : A) → All Fits (rule x y))
    → (before after : Option A) → All Fits (when_known field rule before after)
when_known-Fits field rule u k h none none = ((u, omega arith), tt)
when_known-Fits field rule u k h none (some y) = ((k, omega arith), tt)
when_known-Fits field rule u k h (some x) none = ((u, omega arith), tt)
when_known-Fits field rule u k h (some x) (some y) = h x y

-- One code or another, or none.
choice-Fits :
    (b : Bool) (x y : String × ℕ) → Fits x → Fits y → All Fits (if b then x ∷ [] else y ∷ [])
choice-Fits b x y h k = All-if b (x ∷ []) (y ∷ []) (h, tt) (k, tt)

optional-Fits : (b : Bool) (x : String × ℕ) → Fits x → All Fits (if b then [] else x ∷ [])
optional-Fits b x h = All-if b [] (x ∷ []) tt (h, tt)

budget-Fits : (x y : Money) → All Fits (budget_reasons x y)
budget-Fits x y =
    All-if (not (str_eq x.currency y.currency)) (("budget_currency_changed", 1) ∷ [])
      (if ltb_ℤ x.estimated_amount y.estimated_amount
        then ("budget_increased", 1) ∷ []
        else ("budget_decreased", 1) ∷ [])
      ((refl, omega arith), tt)
      (choice-Fits (ltb_ℤ x.estimated_amount y.estimated_amount) ("budget_increased", 1)
        ("budget_decreased", 1) (refl, omega arith) (refl, omega arith))

deadline-Fits : (x y : String) → All Fits (deadline_reasons x y)
deadline-Fits x y =
    choice-Fits (is_earlier y x) ("deadline_earlier", 2) ("deadline_later", 1) (refl, omega arith)
      (refl, omega arith)

region-Fits : (x y : List String) → All Fits (region_reasons x y)
region-Fits x y =
    All-if (is_empty x) (("region_restriction_added", 2) ∷ [])
      (if is_empty y
        then ("region_restriction_removed", 1) ∷ []
        else ("region_restriction_changed", 2) ∷ [])
      ((refl, omega arith), tt)
      (choice-Fits (is_empty y) ("region_restriction_removed", 1) ("region_restriction_changed", 2)
        (refl, omega arith) (refl, omega arith))

requirement-Fits :
    (prefix : String)
    → 2 ≡ code_severity (join prefix "_added")
    → 1 ≡ code_severity (join prefix "_removed")
    → (x y : List String) → All Fits (requirement_reasons prefix x y)
requirement-Fits prefix a r x y =
    All-append (if is_empty (minus y x) then [] else (join prefix "_added", 2) ∷ [])
      (if is_empty (minus x y) then [] else (join prefix "_removed", 1) ∷ [])
      (optional-Fits (is_empty (minus y x)) (join prefix "_added", 2) (a, omega arith))
      (optional-Fits (is_empty (minus x y)) (join prefix "_removed", 1) (r, omega arith))

change-Fits : (c : Change) → All Fits (change_reasons c)
unfolding change_reasons
change-Fits (attachments ks) = attachment-Fits ks
change-Fits (budget b a) = when_known-Fits "budget" budget_reasons refl refl budget-Fits b a
change-Fits (closes_at b a) =
    when_known-Fits "closes_at" deadline_reasons refl refl deadline-Fits b a
change-Fits (regions b a) = when_known-Fits "regions" region_reasons refl refl region-Fits b a
change-Fits (required_certifications b a) =
    when_known-Fits "required_certifications" (requirement_reasons "certification") refl refl
      (requirement-Fits "certification" refl refl) b a
change-Fits (required_capabilities b a) =
    when_known-Fits "required_capabilities" (requirement_reasons "capability") refl refl
      (requirement-Fits "capability" refl refl) b a
change-Fits (participation_constraints b a) =
    when_known-Fits "participation_constraints" (λ _ _. ("material_clause_changed", 2) ∷ []) refl
      refl (λ x y. ((refl, omega arith), tt)) b a
change-Fits (contract_period b a) =
    when_known-Fits "contract_period" (λ _ _. ("contract_period_changed", 1) ∷ []) refl refl
      (λ x y. ((refl, omega arith), tt)) b a

-- The worst of a change's own reasons.
abbrev pub change_severity : Change → ℕ
change_severity c = worst (change_reasons c)

abbrev pub worst_change : List Change → ℕ
worst_change [] = 0
worst_change (c ∷ cs) = max (change_severity c) (worst_change cs)

max_again : (n m k : ℕ) → n ≡ m → max n k ≡ max n (max m k)
max_again n m k h = ground arith

max_swap : (m n k : ℕ) → max m (max n k) ≡ max n (max m k)
max_swap m n k = ground arith

worst-put_reason :
    (code : String) (n : ℕ) (rs : Reasons)
    → n ≡ code_severity code
    → All Fits rs
    → worst (put_reason code n rs) ≡ max n (worst rs)
worst-put_reason code n [] e h = refl
worst-put_reason code n ((c, m) ∷ rs) e h = elim (Bool-cases (str_eq c code)) [
  | inl same ↦
      let equal : n ≡ m = e ∙ ap code_severity (sym ((eq_iff c code).0 same)) ∙ sym (h.0).0 in
      rw same (max_again n m (worst rs) equal)
  | inr other ↦ rw (other, worst-put_reason code n rs e h.1) (max_swap m n (worst rs))
]

max_rotate : (a n k : ℕ) → max a (max n k) ≡ max (max n a) k
max_rotate a n k = ground arith

max_zero : (n : ℕ) → max n 0 ≡ n
max_zero n = ground arith

put_reason-Fits :
    (code : String) (n : ℕ) (rs : Reasons)
    → Fits (code, n)
    → All Fits rs
    → All Fits (put_reason code n rs)
put_reason-Fits code n [] e h = (e, tt)
put_reason-Fits code n (r ∷ rs) e h = elim (Bool-cases (str_eq r.0 code)) [
  | inl same ↦ rw same (e, h.1)
  | inr other ↦ rw other (h.0, put_reason-Fits code n rs e h.1)
]

worst-put_reasons :
    (more rs : Reasons)
    → All Fits more
    → All Fits rs
    → (worst (put_reasons more rs) ≡ max (worst more) (worst rs)) × All Fits (put_reasons more rs)
worst-put_reasons [] rs h k = (ground arith, k)
worst-put_reasons ((code, n) ∷ more) rs h k =
    let (same, fits) =
      worst-put_reasons more (put_reason code n rs) h.1 (put_reason-Fits code n rs h.0 k) in
    let first = worst-put_reason code n rs (h.0).0 k in
    (same ∙ ap (max (worst more)) first ∙ max_rotate (worst more) n (worst rs), fits)

worst-all_reasons :
    (cs : List Change) (rs : Reasons)
    → All Fits rs
    → worst (all_reasons cs rs) ≡ max (worst_change cs) (worst rs)
unfolding all_reasons
worst-all_reasons [] rs h = ground arith
worst-all_reasons (c ∷ cs) rs h =
    let (same, fits) = worst-put_reasons (change_reasons c) rs (change-Fits c) h in
    worst-all_reasons cs (put_reasons (change_reasons c) rs) fits
    ∙ ap (max (worst_change cs)) same
    ∙ max_rotate (worst_change cs) (change_severity c) (worst rs)

worst_le : (rs : Reasons) → All Fits rs → worst rs ≤ 2
worst_le [] h = omega arith
worst_le ((code, n) ∷ rs) h = let first = (h.0).1 in let rest = worst_le rs h.1 in ground arith

worst_change_le : (cs : List Change) → worst_change cs ≤ 2
worst_change_le [] = omega arith
worst_change_le (c ∷ cs) =
    let first = worst_le (change_reasons c) (change-Fits c) in
    let rest = worst_change_le cs in ground arith

-- The level of a set of changes is that of the worst reason that any of them has on its own: no reason
-- of one change hides another's, whatever their order, and there is always a level.
pub classify_impact_lem :
    (changes : List Change)
    → ((classify_impact changes).level ≡ level_of (worst_change changes))
      × (worst_change changes ≤ 2)
unfolding classify_impact
classify_impact_lem changes = (
  ap level_of (worst-all_reasons changes [] tt ∙ max_zero (worst_change changes)),
  worst_change_le changes,
)
