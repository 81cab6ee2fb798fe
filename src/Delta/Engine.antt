-- ===== src/Delta/Engine.antt =====
-- apps/api/app/delta/engine.py: the claims of a snapshot, the changes between two snapshots, and the
-- delta. What a snapshot says of a field stands beside the field: its normalized value, whether the
-- upstream payload has it, and the trusted extraction's value where it has one (`none` inside is
-- `null`). An amount is a whole number of its smallest unit, so that its canonical text is a function of
-- it. `str` of a UUID is the number.
pub mod RoundTrip
pub mod Documents
mod Tests
use procure_delta.Prelude.{
  ℕ, String, Bool, true, false, not, ◌&&◌, ◌||◌, Option, none, some, List, [], ◌∷◌, ◌++◌, ◌==◌, leb,
  str_eq, if◌then◌else◌, get_or,
}
use procure_delta.Prelude.Actions.{Result, ok, err}
use procure_delta.Prelude.Int.{ℤ, eq_ℤ}
use procure_delta.Versioning.Schema.{RawRecord, OpportunityVersion}
use procure_delta.Delta.Impact.{
  Money, Change, budget, closes_at, regions, required_certifications, required_capabilities,
  participation_constraints, contract_period, is_earlier,
}

pub record Attachment : Type 0 where
  pub id : ℕ
  pub opportunity_version_id : ℕ
  pub source_url : String
  pub filename : String
  pub sha256 : Option String

-- What a snapshot has for one field.
pub record Sources (A : Type 0) : Type 0 where
  pub normalized : Option A
  pub in_payload : Bool
  pub extracted : Option (Option A)
  -- the evidence of the extraction
  pub items : List String

pub record DeltaSnapshot : Type 0 where
  pub version : OpportunityVersion
  pub raw : RawRecord
  pub estimated_amount : Sources ℤ
  pub currency : Sources String
  pub closes_at : Sources String
  pub regions : Sources (List String)
  pub required_certifications : Sources (List String)
  pub required_capabilities : Sources (List String)
  pub participation_constraints : Sources (List String)
  pub contract_period : Sources String
  pub has_extraction : Bool
  pub attachments : List Attachment
  pub attachment_manifest_complete : Bool

pub data Evidence : Type 0 where
  raw_evidence : ℕ → ℕ → String → String → String → Evidence
  attachment_claim : String → Evidence
  normalizer_default : String → ℕ → String → Evidence
  attachment : ℕ → ℕ → String → Option String → Evidence

abbrev pub Claim : Type 0 → Type 0
Claim A = Option A × List Evidence

abbrev pub attachment_claims : List String → List Evidence
attachment_claims [] = []
attachment_claims (item ∷ items) = attachment_claim item ∷ attachment_claims items

abbrev pub raw_claim : RawRecord → String → Evidence
raw_claim raw field =
    raw_evidence raw.id raw.source_id raw.source_record_id raw.payload_sha256 field

-- The branches of `_claim`, before the canonical form; `other` is the branch for the currency.
abbrev pub extracted_claim : {A : Type 0} → Sources A → Option (Option A) → Claim A → Claim A
extracted_claim s (some value) other = (value, attachment_claims s.items)
extracted_claim s none other = other

abbrev pub found_claim : {A : Type 0} → Bool → RawRecord → String → Sources A → Claim A → Claim A
found_claim true raw field s other = (s.normalized, raw_claim raw field ∷ [])
found_claim false raw field s other = extracted_claim s s.extracted other

abbrev pub no_claim : {A : Type 0} → Claim A
no_claim = (none, [])

abbrev pub claim : {A : Type 0} → DeltaSnapshot → String → Sources A → Claim A
claim snapshot field s = found_claim s.in_payload snapshot.raw field s no_claim

-- The branch of `_claim` that is the currency's own. A normalized currency is a text, never null.
abbrev pub default_currency : Bool → DeltaSnapshot → Claim String
default_currency false snapshot = no_claim
default_currency true snapshot =
    let value = get_or "KRW" snapshot.currency.normalized in
    (some value, normalizer_default value snapshot.raw.id snapshot.version.extraction_version ∷ [])

abbrev pub currency_claim : DeltaSnapshot → Claim String
currency_claim snapshot =
    found_claim snapshot.currency.in_payload snapshot.raw "currency" snapshot.currency
      (default_currency snapshot.estimated_amount.in_payload snapshot)

-- `dict.get`, which is `None` for a missing key.
abbrev pub or_null : {A : Type 0} → Option (Option A) → Option A
or_null none = none
or_null (some value) = value

abbrev pub money : Claim ℤ → Claim String → Claim Money
money (none, _) currency = (none, [])
money (some amount, _) (none, _) = (none, [])
money (some amount, evidence) (some currency, more) =
    (some (record { estimated_amount = amount; currency = currency }), evidence ++ more)

-- `_budget`: both parts from the attachments where the payload has no amount.
unfoldable pub budget_claim : DeltaSnapshot → Claim Money
budget_claim snapshot =
    if not snapshot.estimated_amount.in_payload && snapshot.has_extraction
    then money
        (
          or_null snapshot.estimated_amount.extracted,
          attachment_claims snapshot.estimated_amount.items,
        )
        (or_null snapshot.currency.extracted, attachment_claims snapshot.currency.items)
    else money (claim snapshot "estimated_amount" snapshot.estimated_amount)
        (currency_claim snapshot)

-- `sorted(set(value))`
abbrev pub insert_once : String → List String → List String
insert_once s [] = s ∷ []
insert_once s (x ∷ xs) =
    let rest = insert_once s xs in
    if str_eq x s then x ∷ xs else if is_earlier x s then x ∷ rest else s ∷ x ∷ xs

abbrev pub sorted_set : List String → List String
sorted_set [] = []
sorted_set (x ∷ xs) = insert_once x (sorted_set xs)

abbrev pub canonical_list : Claim (List String) → Claim (List String)
canonical_list (none, evidence) = (none, evidence)
canonical_list (some xs, evidence) = (some (sorted_set xs), evidence)

pub data DeltaError : Type 0 where
  other_opportunity not_ascending other_provenance bad_deadline : DeltaError

-- The canonical claims of a snapshot.
pub record Claims : Type 0 where
  pub budget : Option Money
  pub closes_at : Option String
  pub regions : Option (List String)
  pub required_certifications : Option (List String)
  pub required_capabilities : Option (List String)
  pub participation_constraints : Option (List String)
  pub contract_period : Option String

pub record Proofs : Type 0 where
  pub budget : List Evidence
  pub closes_at : List Evidence
  pub regions : List Evidence
  pub required_certifications : List Evidence
  pub required_capabilities : List Evidence
  pub participation_constraints : List Evidence
  pub contract_period : List Evidence

module _ (utc : String → Option String) where
  -- The deadline in UTC; `utc` fails on a text that is no time or has no timezone.
  abbrev pub deadline : Claim String → Option (Claim String)
  deadline (none, evidence) = some (none, evidence)
  deadline (some value, evidence) = elim (utc value) [
    | none ↦ none
    | some canonical ↦ some (some canonical, evidence)
  ]

  abbrev pub gathered : DeltaSnapshot → Claim String → Claims × Proofs
  gathered snapshot closing =
      let money' = budget_claim snapshot in
      let region = canonical_list (claim snapshot "regions" snapshot.regions) in
      let certification =
        canonical_list
          (claim snapshot "required_certifications" snapshot.required_certifications) in
      let capability =
        canonical_list (claim snapshot "required_capabilities" snapshot.required_capabilities) in
      let constraint =
        canonical_list
          (claim snapshot "participation_constraints" snapshot.participation_constraints) in
      let contract = claim snapshot "contract_period" snapshot.contract_period in
      (
        record {
          budget = money'.0;
          closes_at = closing.0;
          regions = region.0;
          required_certifications = certification.0;
          required_capabilities = capability.0;
          participation_constraints = constraint.0;
          contract_period = contract.0;
        },
        record {
          budget = money'.1;
          closes_at = closing.1;
          regions = region.1;
          required_certifications = certification.1;
          required_capabilities = capability.1;
          participation_constraints = constraint.1;
          contract_period = contract.1;
        },
      )

  abbrev pub gathered_with : DeltaSnapshot → Option (Claim String) → Option (Claims × Proofs)
  gathered_with snapshot none = none
  gathered_with snapshot (some closing) = some (gathered snapshot closing)

  -- Every claim of a snapshot; nothing where its deadline raises.
  unfoldable pub claims : DeltaSnapshot → Option (Claims × Proofs)
  claims snapshot =
      gathered_with snapshot (deadline (claim snapshot "closes_at" snapshot.closes_at))

pub record FieldChange : Type 0 where
  pub change : Change
  pub before_evidence : List Evidence
  pub after_evidence : List Evidence

-- The entry of a field whose values differ, in front of the entries of the later fields.
abbrev pub report :
    Bool → Change → List Evidence → List Evidence → List FieldChange → List FieldChange
report true change before after rest = rest
report false change before after rest =
    record { change = change; before_evidence = before; after_evidence = after } ∷ rest

abbrev pub same_option : {A : Type 0} → (A → A → Bool) → Option A → Option A → Bool
same_option same none none = true
same_option same none (some b) = false
same_option same (some a) none = false
same_option same (some a) (some b) = same a b

abbrev pub same_texts : List String → List String → Bool
same_texts [] [] = true
same_texts [] (y ∷ ys) = false
same_texts (x ∷ xs) [] = false
same_texts (x ∷ xs) (y ∷ ys) = str_eq x y && same_texts xs ys

abbrev pub same_money : Money → Money → Bool
same_money a b = eq_ℤ a.estimated_amount b.estimated_amount && str_eq a.currency b.currency

-- The loop over the fields.
unfoldable pub field_changes : Claims × Proofs → Claims × Proofs → List FieldChange
field_changes (b, be) (a, ae) =
    report (same_option same_money b.budget a.budget) (budget b.budget a.budget) be.budget ae.budget
      (report (same_option str_eq b.closes_at a.closes_at) (closes_at b.closes_at a.closes_at)
        be.closes_at ae.closes_at
        (report (same_option same_texts b.regions a.regions) (regions b.regions a.regions)
          be.regions ae.regions
          (report (same_option same_texts b.required_certifications a.required_certifications)
            (required_certifications b.required_certifications a.required_certifications)
            be.required_certifications ae.required_certifications
            (report (same_option same_texts b.required_capabilities a.required_capabilities)
              (required_capabilities b.required_capabilities a.required_capabilities)
              be.required_capabilities ae.required_capabilities
              (report
                (same_option same_texts b.participation_constraints a.participation_constraints)
                (participation_constraints b.participation_constraints a.participation_constraints)
                be.participation_constraints ae.participation_constraints
                (report (same_option str_eq b.contract_period a.contract_period)
                  (contract_period b.contract_period a.contract_period) be.contract_period
                  ae.contract_period []))))))
