-- ===== src/Credits/Fence/Single.antt =====
-- The fence of apps/api/app/credits/extraction.py over any history of its transactions.
use Prim.Native.String.{◌++◌ as join}
use procure_delta.Prelude.{
  arith, ℕ, ◌+◌, ◌≤◌, ◌≡◌, refl, inl, inr, String, ◌&&◌, Option, none, some, List, [], ◌∷◌, str_eq,
  eq_iff, if◌then◌else◌, find, Bool-cases,
}
use procure_delta.Prelude.Actions.{Result, ok, err}
use procure_delta.Prelude.Int.{ℤ}
use procure_delta.Credits.Schema.{
  AccountKind, CreditReservation, CreditError, Db, is_reserved, Metadata,
}
use procure_delta.Credits.Session.{Reference}
use procure_delta.Credits.Service.{Settlement, grant_credits, reserve_credits, settle}
use procure_delta.Credits.Service.Invariant.{IsValid}
use procure_delta.Credits.Service.Calls.{
  grant_credits-IsValid, reserve_credits-IsValid, settle-IsValid,
}
use procure_delta.Credits.Fence.{
  ExtractionCreditPolicy, Fenced, passed, is_attempt, is_recent, no_prior, assert_no_prior_attempt,
  reserve_extraction, extraction_reservation, settle_extraction, resolve_found,
  resolve_extraction_reservation, reserve_if_first, reservation_key, attempt, FenceStep, attempting,
  settling_attempt, resolving, funding, fence_step, fence_committed, fence_history,
  reference_type_name, decision_name, settle_reason,
}
use procure_delta.Credits.Fence.Attempts.{
  attempts, no_attempts, grant_credits_attempts, reserve_credits_attempts, settle_attempts,
}

-- No extraction has two reservations.
abbrev pub IsSingle : Db → Type 0
IsSingle db = (key : String) → attempts key db.reservations ≤ 1

-- What a transaction that returns keeps.
abbrev pub Keeps : {A : Type 0} → Fenced A → Type 0
Keeps (ok a, db) = IsValid db × IsSingle db
Keeps (err e, db) = Unit

passed-Keeps :
    {A B : Type 0} (f : A → B) (r : Result CreditError A × Db)
    → ((a : A) → r.0 ≡ ok a → IsValid r.1 × IsSingle r.1)
    → Keeps (passed f r)
passed-Keeps f (ok a, db) h = h a refl
passed-Keeps f (err e, db) h = tt

settle-Keeps :
    (now : ℕ) (how : Settlement) (owner key idempotency : String) (md : Option Metadata) (db : Db)
    → IsValid db
    → IsSingle db
    → Keeps (passed {B = Unit {0}} (λ _. tt) (settle now how owner key idempotency md db))
settle-Keeps now how owner key idempotency md db v single =
    passed-Keeps (λ _. tt) (settle now how owner key idempotency md db)
      (λ a e. (
        settle-IsValid now how owner key idempotency md db v,
        λ k.
            rw
              (settle_attempts k now how owner key idempotency md db.next_id db v.reservation_ids (
                let r = settle now how owner key idempotency md db in
                let whole : r ≡ (ok a, r.1) = cc in whole))
              (single k),
      ))

grant-Keeps :
    (now : ℕ) (owner : String) (amount : ℤ) (ref : Reference) (md : Option Metadata)
    (kind : AccountKind) (db : Db)
    → IsValid db
    → IsSingle db
    → Keeps (passed {B = Unit {0}} (λ _. tt) (grant_credits now owner amount ref md kind db))
grant-Keeps now owner amount ref md kind db v single =
    passed-Keeps (λ _. tt) (grant_credits now owner amount ref md kind db)
      (λ a e. (
        grant_credits-IsValid now owner amount ref md kind db v,
        λ k.
            rw
              (grant_credits_attempts k now owner amount ref md kind db (
                let r = grant_credits now owner amount ref md kind db in
                let whole : r ≡ (ok a, r.1) = cc in whole))
              (single k),
      ))

one_more :
    (key k : String) (n m : ℕ)
    → m ≤ 1
    → (key ≡ k → m ≡ 0)
    → n ≤ m + (if str_eq key k then 1 else 0)
    → n ≤ 1
one_more key k n m single none_yet bound = elim (Bool-cases (str_eq key k)) [
  | inl same ↦
      let zero_now = none_yet ((eq_iff key k).0 same) in
      let bound' : n ≤ m + 1 = rw same at bound in omega arith
  | inr other ↦ let bound' : n ≤ m + 0 = rw other at bound in omega arith
]

reserve_extraction-Keeps :
    (now : ℕ) (key version extraction_key : String) (policy : ExtractionCreditPolicy) (db : Db)
    → IsValid db
    → IsSingle db
    → attempts key db.reservations ≡ 0
    → Keeps (reserve_extraction now key version extraction_key policy db)
unfolding reserve_extraction
reserve_extraction-Keeps now key version extraction_key policy db v single fresh =
    let ref : Reference = record {
      idempotency_key = join key ":reserve";
      reference_type = reference_type_name;
      reference_key = version;
    } in
    let md : Option Metadata =
      some (("extraction_key", extraction_key) ∷ ("policy", "flat-logical-extraction-v1") ∷ []) in
    let r = reserve_credits now policy.account policy.units key ref md db in
    passed-Keeps (λ _. key) r
      (λ a e. (
        reserve_credits-IsValid now policy.account policy.units key ref md db v,
        λ k.
            one_more key k (attempts k r.1.reservations) (attempts k db.reservations) (single k)
              (λ same. rw (← same) fresh)
              (reserve_credits_attempts k now policy.account policy.units key ref md db
                (let whole : r ≡ (ok a, r.1) = cc in whole) refl),
      ))

no_prior-Keeps :
    (now : ℕ) (key version extraction_key : String) (policy : ExtractionCreditPolicy) (db : Db)
    (prior : Option CreditReservation)
    → IsValid db
    → IsSingle db
    → (prior ≡ none → attempts key db.reservations ≡ 0)
    → Keeps (reserve_if_first now key version extraction_key policy (no_prior now prior db))
no_prior-Keeps now key version extraction_key policy db none v single fresh =
    reserve_extraction-Keeps now key version extraction_key policy db v single (fresh refl)
no_prior-Keeps now key version extraction_key policy db (some r) v single fresh =
    elim (Bool-cases (is_reserved r.status && is_recent now r)) [
      | inl e ↦ rw e tt
      | inr e ↦ rw e tt
    ]

resolve_found-Keeps :
    (now : ℕ) (account key : String) (decision : Settlement) (r : Option CreditReservation)
    (db : Db)
    → IsValid db
    → IsSingle db
    → Keeps (resolve_found now account key decision r db)
resolve_found-Keeps now account key decision none db v single = tt
resolve_found-Keeps now account key decision (some r) db v single =
    elim (Bool-cases (is_recent now r)) [
      | inl e ↦ rw e tt
      | inr e ↦ rw e (
          settle-Keeps now decision account key
            (join key (join ":operator:" (decision_name decision)))
            (some (("reason", join "operator_confirmed_" (decision_name decision)) ∷ [])) db v
            single)
    ]

forgotten-Keeps :
    {A : Type 0} (r : Fenced A)
    → Keeps r
    → Keeps {A = Unit {0}} (elim r.0 [ ok _ ↦ ok tt | err e ↦ err e ], r.1)
forgotten-Keeps (ok a, db) h = h
forgotten-Keeps (err e, db) h = tt

committed-Keeps :
    (db : Db) (r : Fenced (Unit {0}))
    → IsValid db
    → IsSingle db
    → Keeps r
    → IsValid (fence_committed db r) × IsSingle (fence_committed db r)
committed-Keeps db (ok a, db') v single h = h
committed-Keeps db (err e, db') v single h = (v, single)

module _ (sha256 : String → String) where
  fence_step-Keeps :
      (s : FenceStep) (db : Db) → IsValid db → IsSingle db → Keeps (fence_step sha256 s db)
  unfolding fence_step attempt assert_no_prior_attempt settle_extraction
      resolve_extraction_reservation
  fence_step-Keeps (attempting now version extraction_key policy) db v single =
      let key = reservation_key sha256 version extraction_key in
      forgotten-Keeps
        (reserve_if_first now key version extraction_key policy
          (no_prior now (find (is_attempt key) db.reservations) db))
        (no_prior-Keeps now key version extraction_key policy db
          (find (is_attempt key) db.reservations) v single (no_attempts key db.reservations))
  fence_step-Keeps (settling_attempt now account key decision) db v single =
      settle-Keeps now decision account key (join key (join ":" (decision_name decision)))
        (some (("reason", settle_reason decision) ∷ [])) db v single
  fence_step-Keeps (resolving now account key decision) db v single =
      resolve_found-Keeps now account key decision (extraction_reservation account key db) db v
        single
  fence_step-Keeps (funding now owner amount ref md kind) db v single =
      grant-Keeps now owner amount ref md kind db v single

  -- From a valid ledger without such a pair, whatever the workers and the operator do, in whatever order
  -- and with whatever accounts, no extraction of a version is ever reserved twice, and the ledger stays
  -- valid.
  pub fence_history-IsSingle :
      (steps : List FenceStep) (db : Db)
      → IsValid db
      → IsSingle db
      → IsValid (fence_history sha256 steps db) × IsSingle (fence_history sha256 steps db)
  unfolding fence_history
  fence_history-IsSingle [] db v single = (v, single)
  fence_history-IsSingle (s ∷ steps) db v single =
      let (v', single') =
        committed-Keeps db (fence_step sha256 s db) v single (fence_step-Keeps s db v single) in
      fence_history-IsSingle steps (fence_committed db (fence_step sha256 s db)) v' single'
