-- ===== src/Worker/Retry.antt =====
-- `_is_transient` and `_poll_retry_not_before` of apps/api/app/workers/jobs.py. An error is what these
-- functions ask of it, with the policy that `retry_policy_for_error` has for it.
use Prim.Native.Nat.{max}
use procure_delta.Prelude.{
  ℕ, ◌+◌, ◌*◌, ◌^◌, String, Bool, true, false, not, ◌||◌, Option, none, some, leb, ◌==◌, str_eq,
  if◌then◌else◌,
}

pub record RetryPolicy : Type 0 where
  pub requires_review : Bool
  pub retry_not_before : Option ℕ

pub data JobError : Type 0 where
  -- httpx.HTTPStatusError, by its status
  http_status : ℕ → JobError
  -- DBAPIError: its SQLSTATE, with the test of the class 08, and whether it is an OperationalError
  database : Option (String × Bool) → Bool → JobError
  -- one of the listed network errors
  network : JobError
  other_error : JobError

abbrev pub is_transient_kind : JobError → Bool
is_transient_kind (http_status n) = (n == 429) || leb 500 n
is_transient_kind (database (some (state, class08)) operational) =
    class08 || str_eq state "40001" || str_eq state "40P01"
is_transient_kind (database none operational) = operational
is_transient_kind network = true
is_transient_kind other_error = false

unfoldable pub is_transient : Option RetryPolicy → JobError → Bool
is_transient none e = is_transient_kind e
is_transient (some policy) e = if policy.requires_review then false else is_transient_kind e

abbrev pub max_job_attempts : ℕ
max_job_attempts = 3

abbrev pub not_before : Option RetryPolicy → ℕ → ℕ
not_before none at = at
not_before (some policy) at = elim policy.retry_not_before [ none ↦ at | some t ↦ max at t ]

-- The time before which a failed poll is not tried again, in microseconds.
unfoldable pub poll_retry_not_before : Option RetryPolicy → JobError → ℕ → ℕ → Option ℕ
poll_retry_not_before policy e attempts now =
    if not (is_transient policy e) || leb max_job_attempts attempts
    then none
    else some (not_before policy (now + 2 ^ attempts * 1000000))
