-- ===== src/Billing/Webhook.antt =====
-- `stripe_sandbox` of apps/api/app/api/billing.py: the signature, the event and the credits, in one
-- session that is committed only with the answer. The reading of the clock for the signature is in
-- microseconds, and that of the service a number of its own.
pub mod Trusted
mod Tests
use procure_delta.Prelude.{
  ℕ, ◌+◌, String, Bool, true, false, not, Option, none, some, List, [], ◌∷◌, ◌++◌, leb, length,
  if◌then◌else◌,
}
use procure_delta.Prelude.Actions.{Result, ok, err}
use procure_delta.Prelude.Json.{Json, JsonFields}
use procure_delta.Credits.Schema.{CreditError}
use procure_delta.Billing.Schema.{
  InvoiceFacts, SandboxEvent, BillingDb, BillingError, bad_input, conflict, credit_error,
}
use procure_delta.Billing.Contract.Parsing.{Checked, accepted, reviewed, rejected}
use procure_delta.Billing.Contract.Event.{max_body_bytes, parse_event}
use procure_delta.Billing.Contract.Signature.{verify_signature}
use procure_delta.Billing.Service.{BillingResult, process_event}

-- What the endpoint relies on: the characters that `strip` removes, HMAC-SHA-256 in hexadecimal, `str`
-- of an integer, the digests, and the JSON parser with its hook for objects.
pub record Libraries : Type 0 where
  pub is_space : ℕ → Bool
  pub hmac : String → List ℕ → List ℕ
  pub str : ℕ → String
  pub facts_digest : InvoiceFacts → String
  pub canonical_digest : Json → String
  pub loads : (List (String × Json) → Option JsonFields) → List ℕ → Option Json

pub record BillingSettings : Type 0 where
  pub billing_sandbox_enabled : Bool
  pub billing_sandbox_scope : Option String
  pub billing_stripe_webhook_secret : Option String

-- A status of HTTP, an error that no handler takes, or the answer.
pub data Reply : Type 0 where
  refused : ℕ → Reply
  failed : CreditError → Reply
  answered : BillingResult → Reply

-- The loop over the chunks; nothing where the body gets too large.
unfoldable pub read_body : List (List ℕ) → List ℕ → Option (List ℕ)
read_body [] body = some body
read_body (chunk ∷ chunks) body =
    if leb (length body + length chunk) max_body_bytes
    then read_body chunks (body ++ chunk)
    else none

-- Commit with the answer; every error leaves the session without a commit.
abbrev pub finish : BillingDb → Result BillingError BillingResult × BillingDb → Reply × BillingDb
finish db (ok result, db') = (answered result, db')
finish db (err bad_input, _) = (refused 400, db)
finish db (err conflict, _) = (refused 409, db)
finish db (err (credit_error e), _) = (failed e, db)

-- No event is `reviewed`: the reason for a review is in the event.
abbrev pub process_parsed : ℕ → String → Checked SandboxEvent → BillingDb → Reply × BillingDb
process_parsed now scope (accepted event) db = finish db (process_event now scope event db)
process_parsed now scope (reviewed why) db = (refused 400, db)
process_parsed now scope rejected db = (refused 400, db)

module _ (libraries : Libraries) (clock now : ℕ) where
  abbrev pub parsed_body : List ℕ → Checked SandboxEvent
  parsed_body body =
      parse_event libraries.str libraries.facts_digest libraries.loads libraries.canonical_digest
        body

  abbrev pub process_verified : Bool → String → List ℕ → BillingDb → Reply × BillingDb
  process_verified false scope body db = (refused 400, db)
  process_verified true scope body db = process_parsed now scope (parsed_body body) db

  abbrev pub process_body :
      String → String → List ℕ → Option (List ℕ) → BillingDb → Reply × BillingDb
  process_body scope secret header none db = (refused 413, db)
  process_body scope secret header (some body) db =
      process_verified (verify_signature libraries.hmac libraries.is_space body header secret clock)
        scope body db

  -- One header, or the request is refused.
  abbrev pub process_headers :
      String → String → List (List ℕ) → List (List ℕ) → BillingDb → Reply × BillingDb
  process_headers scope secret [] chunks db = (refused 400, db)
  process_headers scope secret (a ∷ b ∷ headers) chunks db = (refused 400, db)
  process_headers scope secret (header ∷ []) chunks db =
      process_body scope secret header (read_body chunks []) db

  abbrev pub process_configured :
      Option String → Option String → List (List ℕ) → List (List ℕ) → BillingDb → Reply × BillingDb
  process_configured (some scope) (some secret) headers chunks db =
      process_headers scope secret headers chunks db
  process_configured none secret headers chunks db = (refused 503, db)
  process_configured (some scope) none headers chunks db = (refused 503, db)

  unfoldable pub stripe_sandbox :
      BillingSettings → List (List ℕ) → List (List ℕ) → BillingDb → Reply × BillingDb
  stripe_sandbox settings headers chunks db =
      if settings.billing_sandbox_enabled
      then process_configured settings.billing_sandbox_scope settings.billing_stripe_webhook_secret
          headers chunks db
      else (refused 404, db)
