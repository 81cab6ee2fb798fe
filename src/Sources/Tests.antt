-- ===== src/Sources/Tests.antt =====
-- Requests of the client of apps/api/app/sources/http.py against servers that fail.
use procure_delta.Prelude.{ℕ, zero, suc, ◌≡◌, refl, false, none, some, arith}
use procure_delta.Sources.Http.{
  Answer, responded, unreachable, received, deadline_exceeded, transport_error, HttpClient,
  Transport, retry_after_policy, sleep_before_retry, request_with_retries, request,
}
use procure_delta.Sources.Http.Bounded.{IsBounded, request-IsBounded}

abbrev client : HttpClient
client = record {
  max_attempts = 3;
  backoff_base = 250000;
  total_timeout = 30000000;
  jitter = λ delay. 0;
}

abbrev recovers : ℕ → Answer
recovers attempt = elim attempt [
  | zero ↦ unreachable
  | suc zero ↦ responded 503 (some 2000000)
  | suc (suc n) ↦ responded 200 none
]

abbrev recovering : Transport
recovering = record { answer = recovers; duration = λ attempt. 100000 }

abbrev down : Transport
down = record { answer = λ attempt. unreachable; duration = λ attempt. 100000 }

abbrev busy : Transport
busy = record { answer = λ attempt. responded 429 (some 60000000); duration = λ attempt. 100000 }

recovering_test :
    request client recovering 0 ≡ record { outcome = received 200; sent = 2; at = 2200000 }
unfolding request request_with_retries sleep_before_retry retry_after_policy
recovering_test = refl

down_test : request client down 0 ≡ record { outcome = transport_error; sent = 3; at = 1050000 }
unfolding request request_with_retries sleep_before_retry retry_after_policy
down_test = refl

busy_test : request client busy 0 ≡ record {
  outcome =
      deadline_exceeded (record { requires_review = false; retry_not_before = some 60100000 });
  sent = 1;
  at = 100000;
}
unfolding request request_with_retries sleep_before_retry retry_after_policy
busy_test = refl

request-IsBounded_example : IsBounded 3 30000005 (request client busy 5)
request-IsBounded_example = request-IsBounded client busy 5 (omega arith)
