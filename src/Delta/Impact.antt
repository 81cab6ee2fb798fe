-- ===== src/Delta/Impact.antt =====
-- `classify_impact` of apps/api/app/delta/rules.py. The changes are listed in the order in which the
-- dictionary holds them; an amount is a whole number of its smallest unit, and a closing time is the
-- canonical text in which the engine writes it.
pub mod Severity
use Prim.Native.Nat.{Ordering, max}
use Prim.Native.String.{◌++◌ as join}
use procure_delta.Prelude.{
  ℕ, zero, suc, String, Bool, true, false, not, ◌&&◌, Option, none, some, List, [], ◌∷◌, ◌++◌,
  str_eq, if◌then◌else◌, any, select, is_some, map,
}
use procure_delta.Prelude.Int.{ℤ, ltb_ℤ}
use procure_delta.Lifecycle.Candidate.{is_empty}

pub record Money : Type 0 where
  pub estimated_amount : ℤ
  pub currency : String

pub data Kind : Type 0 where
  added removed replaced : Kind

-- A field's change, with its value before and after.
pub data Change : Type 0 where
  attachments : List Kind → Change
  budget : Option Money → Option Money → Change
  closes_at : Option String → Option String → Change
  regions : Option (List String) → Option (List String) → Change
  required_certifications : Option (List String) → Option (List String) → Change
  required_capabilities : Option (List String) → Option (List String) → Change
  participation_constraints : Option (List String) → Option (List String) → Change
  contract_period : Option String → Option String → Change

-- The dictionary of reasons: the codes with their severities, the first entry first.
abbrev pub Reasons : Type 0
Reasons = List (String × ℕ)

-- `reasons[code] = severity`
abbrev pub put_reason : String → ℕ → Reasons → Reasons
put_reason code n [] = (code, n) ∷ []
put_reason code n (r ∷ rs) = if str_eq r.0 code then (code, n) ∷ rs else r ∷ put_reason code n rs

abbrev pub kind_text : Kind → String
kind_text added = "added"
kind_text removed = "removed"
kind_text replaced = "replaced"

abbrev pub kind_severity : Kind → ℕ
kind_severity added = 0
kind_severity removed = 1
kind_severity replaced = 1

-- What a change puts into the dictionary, in its order.
abbrev pub attachment_reasons : List Kind → Reasons
attachment_reasons [] = []
attachment_reasons (k ∷ ks) =
    (join "attachment_" (kind_text k), kind_severity k) ∷ attachment_reasons ks

-- A value that is not known on one side.
abbrev pub unknown_reason {ℓ} : {A : Type ℓ} → String → Option A → Reasons
unknown_reason field none = (join field "_became_unknown", 1) ∷ []
unknown_reason field (some _) = (join field "_became_known", 1) ∷ []

-- A field's rule, where both values are known.
abbrev pub when_known : {A : Type 0} → String → (A → A → Reasons) → Option A → Option A → Reasons
when_known field rule (some before) (some after) = rule before after
when_known field rule none after = unknown_reason field after
when_known field rule (some before) none = (join field "_became_unknown", 1) ∷ []

abbrev pub budget_reasons : Money → Money → Reasons
budget_reasons before after =
    if not (str_eq before.currency after.currency)
    then ("budget_currency_changed", 1) ∷ []
    else if ltb_ℤ before.estimated_amount after.estimated_amount
    then ("budget_increased", 1) ∷ []
    else ("budget_decreased", 1) ∷ []

-- `after < before`
abbrev pub is_earlier : String → String → Bool
is_earlier after before = elim (Prim.Native.String.compare after before) [
  | Ordering.lt ↦ true
  | _ ↦ false
]

abbrev pub deadline_reasons : String → String → Reasons
deadline_reasons before after =
    if is_earlier after before then ("deadline_earlier", 2) ∷ [] else ("deadline_later", 1) ∷ []

abbrev pub region_reasons : List String → List String → Reasons
region_reasons before after =
    if is_empty before
    then ("region_restriction_added", 2) ∷ []
    else if is_empty after
    then ("region_restriction_removed", 1) ∷ []
    else ("region_restriction_changed", 2) ∷ []

-- `set(xs) - set(ys)`
abbrev pub minus : List String → List String → List String
minus xs ys = select (λ x. not (any (str_eq x) ys)) xs

abbrev pub requirement_reasons : String → List String → List String → Reasons
requirement_reasons prefix before after =
    (if is_empty (minus after before) then [] else (join prefix "_added", 2) ∷ [])
    ++ (if is_empty (minus before after) then [] else (join prefix "_removed", 1) ∷ [])

unfoldable pub change_reasons : Change → Reasons
change_reasons (attachments ks) = attachment_reasons ks
change_reasons (budget b a) = when_known "budget" budget_reasons b a
change_reasons (closes_at b a) = when_known "closes_at" deadline_reasons b a
change_reasons (regions b a) = when_known "regions" region_reasons b a
change_reasons (required_certifications b a) =
    when_known "required_certifications" (requirement_reasons "certification") b a
change_reasons (required_capabilities b a) =
    when_known "required_capabilities" (requirement_reasons "capability") b a
change_reasons (participation_constraints b a) =
    when_known "participation_constraints" (λ _ _. ("material_clause_changed", 2) ∷ []) b a
change_reasons (contract_period b a) =
    when_known "contract_period" (λ _ _. ("contract_period_changed", 1) ∷ []) b a

-- The assignments, one after the other.
abbrev pub put_reasons : Reasons → Reasons → Reasons
put_reasons [] rs = rs
put_reasons ((code, n) ∷ more) rs = put_reasons more (put_reason code n rs)

unfoldable pub all_reasons : List Change → Reasons → Reasons
all_reasons [] rs = rs
all_reasons (c ∷ cs) rs = all_reasons cs (put_reasons (change_reasons c) rs)

-- `max(reasons.values(), default=0)`
abbrev pub worst : Reasons → ℕ
worst [] = 0
worst ((_, n) ∷ rs) = max n (worst rs)

pub data Level : Type 0 where
  low medium high : Level

-- The tuple of levels; a severity beyond it raises.
abbrev pub level_of : ℕ → Option Level
level_of zero = some low
level_of (suc zero) = some medium
level_of (suc (suc zero)) = some high
level_of (suc (suc (suc _))) = none

abbrev pub insert_code : String → List String → List String
insert_code s [] = s ∷ []
insert_code s (x ∷ xs) = if is_earlier x s then x ∷ insert_code s xs else s ∷ x ∷ xs

-- `sorted(reasons)`
abbrev pub sorted_codes : Reasons → List String
sorted_codes [] = []
sorted_codes ((code, _) ∷ rs) = insert_code code (sorted_codes rs)

pub record ImpactAssessment : Type 0 where
  pub level : Option Level
  pub reason_codes : List String

unfoldable pub classify_impact : List Change → ImpactAssessment
classify_impact changes =
    let rs = all_reasons changes [] in
    record { level = level_of (worst rs); reason_codes = sorted_codes rs }
