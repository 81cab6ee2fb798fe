-- ===== src/Credits/Fence.antt =====
-- apps/api/app/credits/extraction.py on the credit ledger: one charged attempt for each extraction of a
-- version. SHA-256 in hexadecimal is a parameter; a UUID is its text. Times are in microseconds.
pub mod Attempts
pub mod Single
mod Tests
use Prim.Native.String.{◌++◌ as join}
use procure_delta.Prelude.{
  ℕ, ◌+◌, String, Bool, true, false, ◌&&◌, ◌||◌, not, Option, none, some, List, [], ◌∷◌, ltb, leb,
  ◌==◌, str_eq, if◌then◌else◌, find,
}
use procure_delta.Prelude.Actions.{Result, ok, err}
use procure_delta.Prelude.Int.{ℤ}
use procure_delta.Credits.Schema.{
  AccountKind, CreditAccount, CreditReservation, CreditError, Db, is_reserved, Metadata,
}
use procure_delta.Credits.Session.{CreditMutation, Reference, owned_by}
use procure_delta.Credits.Service.{Settlement, grant_credits, reserve_credits, settle}

abbrev pub reference_type_name : String
reference_type_name = "pipeline_hosted_extraction_v1"

-- RESERVATION_START_GRACE
abbrev pub start_grace : ℕ
start_grace = 120000000

pub record ExtractionCreditPolicy : Type 0 where
  pub account : String
  pub units : ℤ

pub data FenceError : Type 0 where
  in_progress review_required : FenceError
  not_found too_recent : FenceError
  credit : CreditError → FenceError

abbrev pub Fenced : Type 0 → Type 0
Fenced A = Result FenceError A × Db

-- An error of the credit service passes.
abbrev pub passed : {A B : Type 0} → (A → B) → Result CreditError A × Db → Fenced B
passed f (ok a, db) = (ok (f a), db)
passed f (err e, db) = (err (credit e), db)

-- A reservation of this extraction, in any account.
abbrev pub is_attempt : String → CreditReservation → Bool
is_attempt key r = str_eq r.reference_type reference_type_name && str_eq r.reservation_key key

-- `created_at > now - RESERVATION_START_GRACE`
abbrev pub is_recent : ℕ → CreditReservation → Bool
is_recent now r = ltb now (r.created_at + start_grace)

abbrev pub no_prior : ℕ → Option CreditReservation → Db → Fenced (Unit {0})
no_prior now none db = (ok tt, db)
no_prior now (some r) db =
    if is_reserved r.status && is_recent now r
    then (err in_progress, db)
    else (err review_required, db)

unfoldable pub assert_no_prior_attempt : ℕ → String → Db → Fenced (Unit {0})
assert_no_prior_attempt now key db = no_prior now (find (is_attempt key) db.reservations) db

-- `policy` pays for the attempt; the commit after it is the step's own.
unfoldable pub reserve_extraction :
    ℕ → String → String → String → ExtractionCreditPolicy → Db → Fenced String
reserve_extraction now key version extraction_key policy db =
    passed (λ _. key)
      (reserve_credits now policy.account policy.units key
        (record {
          idempotency_key = join key ":reserve";
          reference_type = reference_type_name;
          reference_key = version;
        })
        (some (("extraction_key", extraction_key) ∷ ("policy", "flat-logical-extraction-v1") ∷ []))
        db)

-- The join of the reservations with the account of an owner.
abbrev pub reservation_in : String → Option CreditAccount → Db → Option CreditReservation
reservation_in key none db = none
reservation_in key (some a) db =
    find (λ r. (r.account_id == a.id) && is_attempt key r) db.reservations

abbrev pub extraction_reservation : String → String → Db → Option CreditReservation
extraction_reservation account key db = reservation_in key (find (owned_by account) db.accounts) db

abbrev pub open_for_call : ℕ → Option CreditReservation → Db → Fenced (Unit {0})
open_for_call now none db = (err review_required, db)
open_for_call now (some r) db =
    if not (is_reserved r.status) || not (is_recent now r)
    then (err review_required, db)
    else (ok tt, db)

unfoldable pub assert_open_reservation : ℕ → String → String → Db → Fenced (Unit {0})
assert_open_reservation now account key db =
    open_for_call now (extraction_reservation account key db) db

abbrev pub decision_name : Settlement → String
decision_name Settlement.commit = "commit"
decision_name Settlement.refund = "refund"

abbrev pub settle_reason : Settlement → String
settle_reason Settlement.commit = "result_persisted"
settle_reason Settlement.refund = "input_changed_before_call"

unfoldable pub settle_extraction : ℕ → String → String → Settlement → Db → Fenced (Unit {0})
settle_extraction now account key decision db =
    passed (λ _. tt)
      (settle now decision account key (join key (join ":" (decision_name decision)))
        (some (("reason", settle_reason decision) ∷ [])) db)

abbrev pub resolve_found :
    ℕ → String → String → Settlement → Option CreditReservation → Db → Fenced (Unit {0})
resolve_found now account key decision none db = (err not_found, db)
resolve_found now account key decision (some r) db =
    if is_recent now r
    then (err too_recent, db)
    else passed (λ _. tt)
        (settle now decision account key (join key (join ":operator:" (decision_name decision)))
          (some (("reason", join "operator_confirmed_" (decision_name decision)) ∷ [])) db)

unfoldable pub resolve_extraction_reservation :
    ℕ → String → String → Settlement → Db → Fenced (Unit {0})
resolve_extraction_reservation now account key decision db =
    resolve_found now account key decision (extraction_reservation account key db) db

abbrev pub reserve_if_first :
    ℕ → String → String → String → ExtractionCreditPolicy → Fenced (Unit {0}) → Fenced String
reserve_if_first now key version extraction_key policy (ok _, db) =
    reserve_extraction now key version extraction_key policy db
reserve_if_first now key version extraction_key policy (err e, db) = (err e, db)

-- The transactions of the workers and of the operator's commands.
pub data FenceStep : Type 0 where
  attempting : ℕ → String → String → ExtractionCreditPolicy → FenceStep
  settling_attempt : ℕ → String → String → Settlement → FenceStep
  resolving : ℕ → String → String → Settlement → FenceStep
  funding : ℕ → String → ℤ → Reference → Option Metadata → AccountKind → FenceStep

abbrev pub fence_committed : Db → Fenced (Unit {0}) → Db
fence_committed db (ok _, db') = db'
fence_committed db (err _, _) = db

module _ (sha256 : String → String) where
  abbrev pub reservation_key : String → String → String
  reservation_key version extraction_key =
      join "extraction:" (sha256 (join version (join ":" extraction_key)))

  -- The fence and the reservation, as `persist_extraction` makes them under the version's lock.
  unfoldable pub attempt : ℕ → String → String → ExtractionCreditPolicy → Db → Fenced String
  attempt now version extraction_key policy db =
      let key = reservation_key version extraction_key in
      reserve_if_first now key version extraction_key policy (assert_no_prior_attempt now key db)

  unfoldable pub fence_step : FenceStep → Db → Fenced (Unit {0})
  fence_step (attempting now version extraction_key policy) db =
      let (r, db') = attempt now version extraction_key policy db in
      (elim r [ ok _ ↦ ok tt | err e ↦ err e ], db')
  fence_step (settling_attempt now account key decision) db =
      settle_extraction now account key decision db
  fence_step (resolving now account key decision) db =
      resolve_extraction_reservation now account key decision db
  fence_step (funding now owner amount ref md kind) db =
      passed (λ _. tt) (grant_credits now owner amount ref md kind db)

  unfoldable pub fence_history : List FenceStep → Db → Db
  fence_history [] db = db
  fence_history (s ∷ ss) db = fence_history ss (fence_committed db (fence_step s db))
