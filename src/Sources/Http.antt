-- ===== src/Sources/Http.antt =====
-- `ResilientHttpClient` of apps/api/app/sources/http.py. Times are in microseconds, and the event loop's
-- clock and the wall clock advance together. What the transport answers to each attempt, how long it
-- takes, and the jitter, are parameters; so is the reading of a Retry-After header, whose delay is given.
pub mod Bounded
use Prim.Native.Nat.{max}
use procure_delta.Prelude.{
  ℕ, zero, suc, ◌+◌, ◌-◌, ◌*◌, ◌^◌, Bool, true, false, ◌||◌, ◌&&◌, Option, none, some, ltb, leb,
  ◌==◌, if◌then◌else◌, not,
}
use procure_delta.Worker.Retry.{RetryPolicy}

pub data Answer : Type 0 where
  -- a status, with the delay of a Retry-After header
  responded : ℕ → Option ℕ → Answer
  -- httpx.TimeoutException or httpx.NetworkError
  unreachable : Answer
  -- any other error of httpx, such as RemoteProtocolError
  failed : Answer

pub data Outcome : Type 0 where
  received : ℕ → Outcome
  -- RetryableHTTPStatusError, and the status error that is not retried
  retryable_error : ℕ → Option RetryPolicy → Outcome
  status_error : ℕ → Outcome
  transport_error : Outcome
  -- the error of httpx that is not caught
  uncaught_error : Outcome
  -- RetryAfterDeadlineExceeded, and a TimeoutError without a policy
  deadline_exceeded : RetryPolicy → Outcome
  timed_out : Outcome
  -- the RuntimeError after the loop
  exhausted : Outcome

-- How the call ends: after how many requests, and when.
pub record Ending : Type 0 where
  pub outcome : Outcome
  pub sent : ℕ
  pub at : ℕ

pub record HttpClient : Type 0 where
  pub max_attempts : ℕ
  pub backoff_base : ℕ
  pub total_timeout : ℕ
  pub jitter : ℕ → ℕ

pub record Transport : Type 0 where
  pub answer : ℕ → Answer
  pub duration : ℕ → ℕ

abbrev pub max_automatic_retry_after : ℕ
max_automatic_retry_after = 86400000000

unfoldable pub retry_after_policy : ℕ → Option ℕ → Option RetryPolicy
retry_after_policy observed_at none = none
retry_after_policy observed_at (some delay) =
    if ltb max_automatic_retry_after delay
    then some (record { requires_review = true; retry_not_before = none })
    else some (record { requires_review = false; retry_not_before = some (observed_at + delay) })

abbrev pub is_retryable : ℕ → Bool
is_retryable status = (status == 429) || leb 500 status

-- `response.is_error`: the statuses 400 to 599
abbrev pub is_error : ℕ → Bool
is_error status = leb 400 status && leb status 599

-- `response.raise_for_status()` raises on every status but these.
abbrev pub is_success : ℕ → Bool
is_success status = leb 200 status && leb status 299

-- The handler of `request`: a timeout keeps the cooldown of the last answer.
abbrev pub timeout_with : Option RetryPolicy → Outcome
timeout_with none = timed_out
timeout_with (some policy) = deadline_exceeded policy

pub data Sleep : Type 0 where
  -- the time when the loop goes on, or the error
  woke : ℕ → Sleep
  gave_up : Outcome → Sleep

abbrev pub wait_until : ℕ → Option ℕ → ℕ → ℕ
wait_until now none delay = delay
wait_until now (some at) delay = max delay (at - now)

-- The sleep, where it ends before the deadline.
abbrev pub sleep_within : ℕ → ℕ → ℕ → Outcome → Sleep
sleep_within deadline now delay late =
    if leb (deadline - now) delay then gave_up late else woke (now + delay)

module _ (client : HttpClient) (transport : Transport) where
  abbrev pub backoff : ℕ → ℕ
  backoff attempt =
      let delay = client.backoff_base * 2 ^ (attempt - 1) in delay + client.jitter delay

  -- `_sleep_before_retry`; `state` is the policy that a timeout keeps.
  unfoldable pub sleep_before_retry : ℕ → ℕ → ℕ → Option RetryPolicy → Option RetryPolicy → Sleep
  sleep_before_retry deadline attempt now none state =
      sleep_within deadline now (backoff attempt) (timeout_with state)
  sleep_before_retry deadline attempt now (some policy) state =
      if policy.requires_review
      then gave_up (deadline_exceeded policy)
      else sleep_within deadline now (wait_until now policy.retry_not_before (backoff attempt))
          (deadline_exceeded policy)

  abbrev pub resume : ℕ → ℕ → Sleep → (ℕ → Ending) → Ending
  resume attempt now (gave_up outcome) rest = record { outcome = outcome; sent = attempt; at = now }
  resume attempt now (woke t) rest = rest t

  -- The answer to an attempt; `rest` goes on with the next one, from a time and with a policy.
  abbrev pub after_answer :
      ℕ → ℕ → ℕ → Option RetryPolicy → Answer → (ℕ → Option RetryPolicy → Ending) → Ending
  after_answer deadline attempt now state unreachable rest =
      if attempt == client.max_attempts
      then record { outcome = transport_error; sent = attempt; at = now }
      else resume attempt now (sleep_before_retry deadline attempt now none state)
          (λ t. rest t state)
  after_answer deadline attempt now state failed rest = record {
    outcome = uncaught_error;
    sent = attempt;
    at = now;
  }
  after_answer deadline attempt now state (responded status header) rest =
      let policy = retry_after_policy now header in
      if is_retryable status
      then if attempt == client.max_attempts
        then record { outcome = retryable_error status policy; sent = attempt; at = now }
        else resume attempt now (sleep_before_retry deadline attempt now policy policy)
            (λ t. rest t policy)
      else if is_error status
      then record { outcome = status_error status; sent = attempt; at = now }
      else if not (is_success status)
      then record { outcome = status_error status; sent = attempt; at = now }
      else record { outcome = received status; sent = attempt; at = now }

  -- `_request_with_retries` under the timeout: the attempts that are left, the number of the next one,
  -- the time, and the policy of the last answer.
  unfoldable pub request_with_retries : ℕ → ℕ → ℕ → ℕ → Option RetryPolicy → Ending
  request_with_retries deadline zero attempt now state = record {
    outcome = exhausted;
    sent = attempt;
    at = now;
  }
  request_with_retries deadline (suc left) attempt now state =
      let arrival = now + transport.duration attempt in
      if ltb deadline arrival
      then record { outcome = timeout_with state; sent = attempt; at = deadline }
      else after_answer deadline attempt arrival state (transport.answer attempt)
          (λ t policy. request_with_retries deadline left (suc attempt) t policy)

  unfoldable pub request : ℕ → Ending
  request now = request_with_retries (now + client.total_timeout) client.max_attempts 1 now none
