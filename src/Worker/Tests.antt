-- ===== src/Worker/Tests.antt =====
-- Retries and failures of apps/api/app/workers/jobs.py.
use procure_delta.Prelude.{◌≡◌, refl, ℕ, false, none, some, List, [], ◌∷◌, All}
use procure_delta.Worker.Retry.{http_status, network, is_transient, poll_retry_not_before}
use procure_delta.Worker.Failures.{
  IngestFailure, Failure, record_failure, reset_ingest, reconciled, JobRun, succeeded, raised,
  run_job, run_jobs, IsDueRetry, run_jobs-IsDueRetry,
}

server_error : poll_retry_not_before none (http_status 503) 1 10 ≡ some 2000010
unfolding poll_retry_not_before is_transient
server_error = refl

abbrev failure : ℕ → Failure
failure now = record {
  now = now;
  key = "k";
  error_class = "TimeoutException";
  error_message = "timeout";
  payload = "p";
}

abbrev runs : List JobRun
runs =
    raised none (http_status 503) (failure 1)
    ∷ raised none network (failure 2)
    ∷ succeeded "k"
    ∷ raised none network (failure 3)
    ∷ []

abbrev waiting_row : IngestFailure
waiting_row = record {
  job_key = "k";
  attempts = 1;
  error_class = "TimeoutException";
  error_message = "timeout";
  last_error_at = 3;
  payload_json = "p";
  dead_lettered = false;
  next_retry_at = some 2000003;
}

reconciled_test : reconciled 2000003 (run_jobs runs []) ≡ waiting_row ∷ []
unfolding reconciled run_jobs run_job record_failure reset_ingest is_transient
reconciled_test = refl

spent_test :
    reconciled 9000000 (
      run_jobs
        (raised none network (failure 1)
          ∷ raised none network (failure 2)
          ∷ raised none network (failure 3)
          ∷ [])
        [])
    ≡ []
unfolding reconciled run_jobs run_job record_failure is_transient
spent_test = refl

run_jobs-IsDueRetry_example : All (IsDueRetry 2000003) (reconciled 2000003 (run_jobs runs []))
run_jobs-IsDueRetry_example = run_jobs-IsDueRetry runs 2000003
