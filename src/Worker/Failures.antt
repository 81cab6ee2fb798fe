-- ===== src/Worker/Failures.antt =====
-- The failures of the ingest job in apps/api/app/workers/jobs.py: `_record_failure`, what `ingest_record`
-- does with an error and after a success, and the rows that `reconcile_failed_jobs` takes. An error's
-- class and its safe message are arguments, and times are in microseconds.
use procure_delta.Prelude.{
  arith, ℕ, suc, ◌+◌, ◌≤◌, ◌<◌, ◌≡◌, refl, inl, inr, String, Bool, true, false, not, ◌&&◌, Option,
  none, some, List, [], ◌∷◌, leb, str_eq, if◌then◌else◌, select, All, Bool-cases,
}
use procure_delta.Worker.Retry.{RetryPolicy, JobError, is_transient, max_job_attempts}

pub record IngestFailure : Type 0 where
  pub job_key : String
  pub attempts : ℕ
  pub error_class : String
  pub error_message : String
  pub last_error_at : ℕ
  pub payload_json : String
  pub dead_lettered : Bool
  pub next_retry_at : Option ℕ

-- What a call of `_record_failure` gives, besides the number of attempts.
pub record Failure : Type 0 where
  pub now : ℕ
  pub key : String
  pub error_class : String
  pub error_message : String
  pub payload : String

abbrev pub failure_row : Failure → Bool → ℕ → IngestFailure
failure_row f dead attempts = record {
  job_key = f.key;
  attempts = attempts;
  error_class = f.error_class;
  error_message = f.error_message;
  last_error_at = f.now;
  payload_json = f.payload;
  dead_lettered = dead;
  next_retry_at = if dead then none else some (f.now + 2000000);
}

-- `if failure.attempts >= MAX_ATTEMPTS`, after an error that passes.
abbrev pub close_spent : Bool → IngestFailure → IngestFailure
close_spent false row = row
close_spent true row = record row { dead_lettered = true; next_retry_at = none }

-- The row of a failure: the first one, or one more attempt of the row of its key.
abbrev pub failed_row : Bool → Failure → ℕ → IngestFailure
failed_row true f attempts = failure_row f true attempts
failed_row false f attempts =
    close_spent (leb max_job_attempts attempts) (failure_row f false attempts)

-- The insertion, which updates the row of the key where there is one.
unfoldable pub record_failure : Bool → Failure → List IngestFailure → List IngestFailure
record_failure dead f [] = failed_row dead f 1 ∷ []
record_failure dead f (row ∷ rows) =
    let rest = record_failure dead f rows in
    if str_eq row.job_key f.key then failed_row dead f (suc row.attempts) ∷ rows else row ∷ rest

-- The update after a success.
unfoldable pub reset_ingest : String → List IngestFailure → List IngestFailure
reset_ingest key [] = []
reset_ingest key (row ∷ rows) =
    (if str_eq row.job_key key
      then record row { attempts = 0; dead_lettered = false; next_retry_at = none }
      else row)
    ∷ reset_ingest key rows

-- `JobFailure.next_retry_at <= now`, which is not true of `NULL`.
abbrev pub is_due_at : ℕ → Option ℕ → Bool
is_due_at now none = false
is_due_at now (some at) = leb at now

unfoldable pub reconciled : ℕ → List IngestFailure → List IngestFailure
reconciled now = select (λ row. not row.dead_lettered && is_due_at now row.next_retry_at)

-- The ways in which a run of the job ends.
pub data JobRun : Type 0 where
  succeeded : String → JobRun
  -- a payload that is no record, or an unknown source
  malformed : Failure → JobRun
  -- any other error, with its retry policy
  raised : Option RetryPolicy → JobError → Failure → JobRun

unfoldable pub run_job : JobRun → List IngestFailure → List IngestFailure
run_job (succeeded key) rows = reset_ingest key rows
run_job (malformed f) rows = record_failure true f rows
run_job (raised policy e f) rows = record_failure (not (is_transient policy e)) f rows

unfoldable pub run_jobs : List JobRun → List IngestFailure → List IngestFailure
run_jobs [] rows = rows
run_jobs (r ∷ rs) rows = run_jobs rs (run_job r rows)

-- A dead letter has no time of a retry; any other row has fewer than three attempts, and one at least
-- where it waits for a retry.
abbrev pub IsRetryState : Bool → ℕ → Option ℕ → Type 0
IsRetryState true attempts at = at ≡ none
IsRetryState false attempts none = attempts < 3
IsRetryState false attempts (some t) = (1 ≤ attempts) × (attempts < 3)

abbrev pub IsRetriable : IngestFailure → Type 0
IsRetriable row = IsRetryState row.dead_lettered row.attempts row.next_retry_at

failed_row-IsRetriable :
    (dead : Bool) (f : Failure) (attempts : ℕ)
    → 1 ≤ attempts
    → IsRetriable (failed_row dead f attempts)
failed_row-IsRetriable true f attempts h = refl
failed_row-IsRetriable false f attempts h = elim (Bool-cases (leb max_job_attempts attempts)) [
  | inl spent ↦ rw spent refl
  | inr left ↦ rw left (h, ground arith)
]

record_failure-IsRetriable :
    (dead : Bool) (f : Failure) (rows : List IngestFailure)
    → All IsRetriable rows
    → All IsRetriable (record_failure dead f rows)
unfolding record_failure
record_failure-IsRetriable dead f [] h = (failed_row-IsRetriable dead f 1 (omega arith), tt)
record_failure-IsRetriable dead f (row ∷ rows) h = elim (Bool-cases (str_eq row.job_key f.key)) [
  | inl same ↦ rw same (failed_row-IsRetriable dead f (suc row.attempts) (omega arith), h.1)
  | inr other ↦ rw other (h.0, record_failure-IsRetriable dead f rows h.1)
]

reset_ingest-IsRetriable :
    (key : String) (rows : List IngestFailure)
    → All IsRetriable rows
    → All IsRetriable (reset_ingest key rows)
unfolding reset_ingest
reset_ingest-IsRetriable key [] h = tt
reset_ingest-IsRetriable key (row ∷ rows) h = elim (Bool-cases (str_eq row.job_key key)) [
  | inl same ↦ rw same (omega arith, reset_ingest-IsRetriable key rows h.1)
  | inr other ↦ rw other (h.0, reset_ingest-IsRetriable key rows h.1)
]

run_job-IsRetriable :
    (r : JobRun) (rows : List IngestFailure)
    → All IsRetriable rows
    → All IsRetriable (run_job r rows)
unfolding run_job
run_job-IsRetriable (succeeded key) rows h = reset_ingest-IsRetriable key rows h
run_job-IsRetriable (malformed f) rows h = record_failure-IsRetriable true f rows h
run_job-IsRetriable (raised policy e f) rows h =
    record_failure-IsRetriable (not (is_transient policy e)) f rows h

run_jobs-IsRetriable :
    (rs : List JobRun) (rows : List IngestFailure)
    → All IsRetriable rows
    → All IsRetriable (run_jobs rs rows)
unfolding run_jobs
run_jobs-IsRetriable [] rows h = h
run_jobs-IsRetriable (r ∷ rs) rows h =
    run_jobs-IsRetriable rs (run_job r rows) (run_job-IsRetriable r rows h)

-- A row that is taken counts one attempt or two, and its time has come.
abbrev pub IsDueRetry : ℕ → IngestFailure → Type 0
IsDueRetry now row =
    (row.dead_lettered ≡ false)
    × (is_due_at now row.next_retry_at ≡ true)
    × (1 ≤ row.attempts)
    × (row.attempts < 3)

due_attempts :
    (now attempts : ℕ) (dead : Bool) (at : Option ℕ)
    → IsRetryState dead attempts at
    → (not dead && is_due_at now at) ≡ true
    → (dead ≡ false) × (is_due_at now at ≡ true) × (1 ≤ attempts) × (attempts < 3)
due_attempts now attempts true at h e = cc
due_attempts now attempts false none h e = cc
due_attempts now attempts false (some t) h e = (refl, e, h.0, h.1)

reconciled-IsDueRetry :
    (now : ℕ) (rows : List IngestFailure)
    → All IsRetriable rows
    → All (IsDueRetry now) (reconciled now rows)
unfolding reconciled
reconciled-IsDueRetry now [] h = tt
reconciled-IsDueRetry now (row ∷ rows) h =
    elim (Bool-cases (not row.dead_lettered && is_due_at now row.next_retry_at)) [
      | inl due ↦ rw due (
        due_attempts now row.attempts row.dead_lettered row.next_retry_at h.0 due,
        reconciled-IsDueRetry now rows h.1,
      )
      | inr other ↦ rw other (reconciled-IsDueRetry now rows h.1)
    ]

-- However the runs of the job ended, from an empty table, a row that is taken for another try is no dead
-- letter, its time has come, and it counts one attempt or two.
pub run_jobs-IsDueRetry :
    (rs : List JobRun) (now : ℕ) → All (IsDueRetry now) (reconciled now (run_jobs rs []))
run_jobs-IsDueRetry rs now =
    reconciled-IsDueRetry now (run_jobs rs []) (run_jobs-IsRetriable rs [] tt)
