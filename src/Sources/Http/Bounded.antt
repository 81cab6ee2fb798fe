-- ===== src/Sources/Http/Bounded.antt =====
-- The requests of apps/api/app/sources/http.py end.
use procure_delta.Prelude.{
  arith, ℕ, zero, suc, ◌+◌, ◌-◌, ◌≤◌, ◌≡◌, refl, inl, inr, Bool, true, false, Option, none, some,
  ltb, leb, ◌==◌, Bool-cases, if◌then◌else◌,
}
use procure_delta.Worker.Retry.{RetryPolicy}
use procure_delta.Sources.Http.{
  Answer, responded, unreachable, failed, Outcome, received, retryable_error, status_error,
  transport_error, uncaught_error, deadline_exceeded, timed_out, exhausted, Ending, HttpClient,
  Transport, retry_after_policy, is_retryable, is_error, is_success, timeout_with, Sleep, woke,
  gave_up, wait_until, sleep_within, backoff, sleep_before_retry, resume, after_answer,
  request_with_retries, request,
}

-- An outcome of the loop: never the error after it, and a status that is returned is a success.
abbrev pub IsOutcome : Outcome → Type 0
IsOutcome exhausted = ⊥
IsOutcome (received status) = (200 ≤ status) × (status ≤ 299)
IsOutcome (retryable_error status policy) = is_retryable status ≡ true
IsOutcome (status_error status) = (is_retryable status ≡ false) × (is_success status ≡ false)
IsOutcome transport_error = Unit
IsOutcome uncaught_error = Unit
IsOutcome (deadline_exceeded policy) = Unit
IsOutcome timed_out = Unit

pub record IsBounded (limit deadline : ℕ) (e : Ending) : Type 0 where
  pub ends : IsOutcome e.outcome
  pub requests : e.sent ≤ limit
  pub in_time : e.at ≤ deadline

error-not_success : (status : ℕ) → is_error status ≡ true → is_success status ≡ false
error-not_success status h = ground arith

success_range : (status : ℕ) → is_success status ≡ true → (200 ≤ status) × (status ≤ 299)
success_range status h = ground arith

-- A sleep ends before the deadline, and a refusal to sleep is an outcome.
abbrev pub IsSlept : ℕ → Sleep → Type 0
IsSlept deadline (woke t) = t ≤ deadline
IsSlept deadline (gave_up outcome) = IsOutcome outcome

timeout_with-IsOutcome : (state : Option RetryPolicy) → IsOutcome (timeout_with state)
timeout_with-IsOutcome none = tt
timeout_with-IsOutcome (some policy) = tt

sleep_within-IsSlept :
    (deadline now delay : ℕ) (late : Outcome)
    → IsOutcome late
    → IsSlept deadline (sleep_within deadline now delay late)
sleep_within-IsSlept deadline now delay late h = elim (Bool-cases (leb (deadline - now) delay)) [
  | inl e ↦ rw e h
  | inr e ↦ rw e (ground arith)
]

choice-IsSlept :
    (deadline : ℕ) (b : Bool) (s t : Sleep)
    → IsSlept deadline s
    → IsSlept deadline t
    → IsSlept deadline (if b then s else t)
choice-IsSlept deadline true s t p q = p
choice-IsSlept deadline false s t p q = q

module _ (client : HttpClient) (transport : Transport) where
  sleep_before_retry-IsSlept :
      (deadline attempt now : ℕ) (policy state : Option RetryPolicy)
      → IsSlept deadline (sleep_before_retry client transport deadline attempt now policy state)
  unfolding sleep_before_retry
  sleep_before_retry-IsSlept deadline attempt now none state =
      sleep_within-IsSlept deadline now (backoff client transport attempt) (timeout_with state)
        (timeout_with-IsOutcome state)
  sleep_before_retry-IsSlept deadline attempt now (some policy) state =
      choice-IsSlept deadline policy.requires_review (gave_up (deadline_exceeded policy))
        (sleep_within deadline now
          (wait_until now policy.retry_not_before (backoff client transport attempt))
          (deadline_exceeded policy))
        tt
        (sleep_within-IsSlept deadline now
          (wait_until now policy.retry_not_before (backoff client transport attempt))
          (deadline_exceeded policy) tt)

  resume-IsBounded :
      (deadline attempt now : ℕ) (s : Sleep) (rest : ℕ → Ending)
      → attempt ≤ client.max_attempts
      → now ≤ deadline
      → IsSlept deadline s
      → ((t : ℕ) → t ≤ deadline → IsBounded client.max_attempts deadline (rest t))
      → IsBounded client.max_attempts deadline (resume client transport attempt now s rest)
  resume-IsBounded deadline attempt now (gave_up outcome) rest le lt h k = record {
    ends = h;
    requests = le;
    in_time = lt;
  }
  resume-IsBounded deadline attempt now (woke t) rest le lt h k = k t h

  after_answer-IsBounded :
      (deadline attempt now : ℕ) (state : Option RetryPolicy) (answer : Answer)
      (rest : ℕ → Option RetryPolicy → Ending)
      → attempt ≤ client.max_attempts
      → now ≤ deadline
      → ((attempt == client.max_attempts) ≡ false
          → (t : ℕ) (policy : Option RetryPolicy) → t ≤ deadline
          → IsBounded client.max_attempts deadline (rest t policy))
      → IsBounded client.max_attempts deadline
          (after_answer client transport deadline attempt now state answer rest)
  after_answer-IsBounded deadline attempt now state unreachable rest le lt k =
      elim (Bool-cases (attempt == client.max_attempts)) [
        | inl last ↦ rw last (record { ends = tt; requests = le; in_time = lt })
        | inr more ↦ rw more (
            resume-IsBounded deadline attempt now
              (sleep_before_retry client transport deadline attempt now none state)
              (λ t. rest t state) le lt (sleep_before_retry-IsSlept deadline attempt now none state)
              (λ t h. k more t state h))
      ]
  after_answer-IsBounded deadline attempt now state failed rest le lt k = record {
    ends = tt;
    requests = le;
    in_time = lt;
  }
  after_answer-IsBounded deadline attempt now state (responded status header) rest le lt k =
      let policy = retry_after_policy now header in
      elim (Bool-cases (is_retryable status)) [
        | inl again ↦ elim (Bool-cases (attempt == client.max_attempts)) [
          | inl last ↦ rw (again, last) (record { ends = again; requests = le; in_time = lt })
          | inr more ↦
              rw (again, more)
                (resume-IsBounded deadline attempt now
                  (sleep_before_retry client transport deadline attempt now policy policy)
                  (λ t. rest t policy) le lt
                  (sleep_before_retry-IsSlept deadline attempt now policy policy)
                  (λ t h. k more t policy h))
        ]
        | inr final ↦ elim (Bool-cases (is_error status)) [
          | inl bad ↦
              rw (final, bad)
                (record {
                  ends = (final, error-not_success status bad);
                  requests = le;
                  in_time = lt;
                })
          | inr good ↦ elim (Bool-cases (is_success status)) [
            | inl fine ↦
                rw (final, good, fine)
                  (record { ends = success_range status fine; requests = le; in_time = lt })
            | inr other ↦
                rw (final, good, other)
                  (record { ends = (final, other); requests = le; in_time = lt })
          ]
        ]
      ]

  arrived-IsBounded :
      (deadline attempt arrival : ℕ) (state : Option RetryPolicy) (rest : Ending)
      → attempt ≤ client.max_attempts
      → (arrival ≤ deadline → IsBounded client.max_attempts deadline rest)
      → IsBounded client.max_attempts deadline (
          if ltb deadline arrival
          then record { outcome = timeout_with state; sent = attempt; at = deadline }
          else rest)
  arrived-IsBounded deadline attempt arrival state rest le k =
      elim (Bool-cases (ltb deadline arrival)) [
        | inl late ↦
            rw late
              (record { ends = timeout_with-IsOutcome state; requests = le; in_time = omega arith })
        | inr early ↦ rw early (k (ground arith))
      ]

  request_with_retries-IsBounded :
      (deadline left attempt now : ℕ) (state : Option RetryPolicy)
      → attempt + left ≡ client.max_attempts
      → IsBounded client.max_attempts deadline
          (request_with_retries client transport deadline (suc left) attempt now state)
  unfolding request_with_retries
  request_with_retries-IsBounded deadline zero attempt now state h =
      let last : (attempt == client.max_attempts) ≡ true = ground arith in
      arrived-IsBounded deadline attempt (now + transport.duration attempt) state _ (omega arith)
        (λ early.
          after_answer-IsBounded deadline attempt (now + transport.duration attempt) state
            (transport.answer attempt) _ (omega arith) early
            (λ more. let bad : true ≡ false = rw last at more in cc))
  request_with_retries-IsBounded deadline (suc left) attempt now state h =
      arrived-IsBounded deadline attempt (now + transport.duration attempt) state _ (omega arith)
        (λ early.
          after_answer-IsBounded deadline attempt (now + transport.duration attempt) state
            (transport.answer attempt)
            (λ t policy.
              request_with_retries client transport deadline (suc left) (suc attempt) t policy)
            (omega arith) early
            (λ more t policy le.
              request_with_retries-IsBounded deadline left (suc attempt) t policy (omega arith)))

  started-IsBounded :
      (deadline now n : ℕ)
      → 1 ≤ n
      → n ≡ client.max_attempts
      → IsBounded client.max_attempts deadline
          (request_with_retries client transport deadline n 1 now none)
  started-IsBounded deadline now zero h e = absurd (omega arith)
  started-IsBounded deadline now (suc left) h e =
      request_with_retries-IsBounded deadline left 1 now none (omega arith)

  -- Whatever the transport answers and however long it takes, a request of a client that may send at
  -- least one ends by its deadline, after at most its number of attempts, and not by the error after the
  -- loop; a status that it returns is a success, from 200 to 299, and one that it refuses at once is
  -- neither a success nor one to retry.
  pub request-IsBounded :
      (now : ℕ)
      → 1 ≤ client.max_attempts
      → IsBounded client.max_attempts (now + client.total_timeout) (request client transport now)
  unfolding request
  request-IsBounded now h =
      started-IsBounded (now + client.total_timeout) now client.max_attempts h refl
