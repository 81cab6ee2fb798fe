-- ===== src/Billing/Webhook/Trusted.antt =====
-- What `stripe_sandbox` of apps/api/app/api/billing.py asks before it writes.
use procure_delta.Prelude.{
  if◌then◌else◌, ℕ, ◌≡◌, refl, String, Bool, true, false, Option, none, some, List, [], ◌∷◌, inl,
  inr, Option-cases,
}
use procure_delta.Prelude.Actions.{Result, ok, err}
use procure_delta.Billing.Schema.{
  SandboxEvent, BillingDb, BillingError, bad_input, conflict, credit_error,
}
use procure_delta.Billing.Contract.Parsing.{Checked, accepted, reviewed, rejected}
use procure_delta.Billing.Contract.Accepted.{SoundEvent, parse_event-Sound}
use procure_delta.Prelude.Json.{Json}
use procure_delta.Billing.Contract.Event.{unique_object}
use procure_delta.Billing.Contract.Signature.{verify_signature}
use procure_delta.Billing.Contract.Authentic.{IsAuthentic, verify_signature-IsAuthentic}
use procure_delta.Billing.Service.{BillingResult, process_event}
use procure_delta.Billing.Webhook.{
  Libraries, BillingSettings, Reply, refused, failed, answered, read_body, finish, process_parsed,
  parsed_body, process_verified, process_configured, stripe_sandbox,
}

module _ (l : Libraries) (clock now : ℕ) where
  -- The request was signed under the configured secret, its event is what its body says, and the service returned the
  -- answer and the tables.
  pub record IsTrusted (settings : BillingSettings) (headers chunks : List (List ℕ))
      (db : BillingDb) (result : BillingResult) (db' : BillingDb) : Type 0 where
    pub enabled : settings.billing_sandbox_enabled ≡ true
    pub scope : String
    pub scope_set : settings.billing_sandbox_scope ≡ some scope
    pub secret : String
    pub secret_set : settings.billing_stripe_webhook_secret ≡ some secret
    pub header : List ℕ
    pub one_header : headers ≡ header ∷ []
    pub body : List ℕ
    pub received : read_body chunks [] ≡ some body
    pub authentic : IsAuthentic l.is_space l.hmac body header secret clock
    pub event : SandboxEvent
    pub parsed : parsed_body l clock now body ≡ accepted event
    pub value : Json
    pub loaded : l.loads unique_object body ≡ some value
    pub sound : SoundEvent l.str l.facts_digest l.canonical_digest value event
    pub processed : process_event now scope event db ≡ (ok result, db')

  -- What the rest of a request leaves: nothing new, or what P says.
  abbrev pub Leaves : (BillingResult → BillingDb → Type 0) → BillingDb → Reply × BillingDb → Type 0
  Leaves P db (refused status, db') = db' ≡ db
  Leaves P db (failed e, db') = db' ≡ db
  Leaves P db (answered result, db') = P result db'

  finish-Leaves :
      (P : BillingResult → BillingDb → Type 0) (db : BillingDb)
      (r : Result BillingError BillingResult × BillingDb)
      → ((result : BillingResult) (db' : BillingDb) → r ≡ (ok result, db') → P result db')
      → Leaves P db (finish db r)
  finish-Leaves P db (ok result, db') h = h result db' refl
  finish-Leaves P db (err bad_input, _) h = refl
  finish-Leaves P db (err conflict, _) h = refl
  finish-Leaves P db (err (credit_error e), _) h = refl

  parsed-Leaves :
      (P : BillingResult → BillingDb → Type 0) (scope : String) (m : Checked SandboxEvent)
      (db : BillingDb)
      → ((event : SandboxEvent) (result : BillingResult) (db' : BillingDb)
          → m ≡ accepted event
          → process_event now scope event db ≡ (ok result, db')
          → P result db')
      → Leaves P db (process_parsed now scope m db)
  parsed-Leaves P scope (accepted event) db h =
      finish-Leaves P db (process_event now scope event db)
        (λ result db' e. h event result db' refl e)
  parsed-Leaves P scope (reviewed why) db h = refl
  parsed-Leaves P scope rejected db h = refl

  verified-Leaves :
      (P : BillingResult → BillingDb → Type 0) (b : Bool) (scope : String) (body : List ℕ)
      (db : BillingDb)
      → ((event : SandboxEvent) (result : BillingResult) (db' : BillingDb)
          → b ≡ true
          → parsed_body l clock now body ≡ accepted event
          → process_event now scope event db ≡ (ok result, db')
          → P result db')
      → Leaves P db (process_verified l clock now b scope body db)
  verified-Leaves P false scope body db h = refl
  verified-Leaves P true scope body db h =
      parsed-Leaves P scope (parsed_body l clock now body) db
        (λ event result db' e p. h event result db' refl e p)

  configured-Leaves :
      (P : BillingResult → BillingDb → Type 0) (scope secret : Option String)
      (headers chunks : List (List ℕ)) (db : BillingDb)
      → ((s k : String) (header body : List ℕ) (event : SandboxEvent) (result : BillingResult)
            (db' : BillingDb)
          → scope ≡ some s
          → secret ≡ some k
          → headers ≡ header ∷ []
          → read_body chunks [] ≡ some body
          → verify_signature l.hmac l.is_space body header k clock ≡ true
          → parsed_body l clock now body ≡ accepted event
          → process_event now s event db ≡ (ok result, db')
          → P result db')
      → Leaves P db (process_configured l clock now scope secret headers chunks db)
  configured-Leaves P none secret headers chunks db h = refl
  configured-Leaves P (some s) none headers chunks db h = refl
  configured-Leaves P (some s) (some k) [] chunks db h = refl
  configured-Leaves P (some s) (some k) (a ∷ b ∷ headers) chunks db h = refl
  configured-Leaves P (some s) (some k) (header ∷ []) chunks db h =
      elim (Option-cases (read_body chunks [])) [
        | inl large ↦ rw large refl
        | inr (body, received) ↦ rw received (
            verified-Leaves P (verify_signature l.hmac l.is_space body header k clock) s body db
              (λ event result db' signed parsed processed.
                h s k header body event result db' refl refl refl received signed parsed processed))
      ]

  enabled-Leaves :
      (P : BillingResult → BillingDb → Type 0) (b : Bool) (db : BillingDb) (r : Reply × BillingDb)
      → (b ≡ true → Leaves P db r)
      → Leaves P db (if b then r else (refused 404, db))
  enabled-Leaves P true db r h = h refl
  enabled-Leaves P false db r h = refl

  -- A request that is refused or fails leaves the tables as they were. A request that is answered was
  -- sent to an enabled endpoint with one signature header, which is authentic for its body under the
  -- configured secret. The event that the service processed, to that answer, is the one that this very
  -- body parses to, and it says what the JSON value of the body says, with an invoice's facts only for a
  -- paid invoice.
  pub stripe_sandbox-IsTrusted :
      (settings : BillingSettings) (headers chunks : List (List ℕ)) (db : BillingDb)
      → Leaves
          (IsTrusted settings headers chunks db)
          db
          (stripe_sandbox l clock now settings headers chunks db)
  unfolding stripe_sandbox
  stripe_sandbox-IsTrusted settings headers chunks db =
      enabled-Leaves (IsTrusted settings headers chunks db) settings.billing_sandbox_enabled db
        (process_configured l clock now settings.billing_sandbox_scope
          settings.billing_stripe_webhook_secret headers chunks db)
        (λ on.
          configured-Leaves (IsTrusted settings headers chunks db) settings.billing_sandbox_scope
            settings.billing_stripe_webhook_secret headers chunks db
            (λ s k header body event result db' scope_set secret_set one received signed parsed
                processed.
              let (value, loaded, sound) =
                (parse_event-Sound l.str l.facts_digest l.loads l.canonical_digest body event
                  parsed).1 in
              record {
                enabled = on;
                scope = s;
                scope_set = scope_set;
                secret = k;
                secret_set = secret_set;
                header = header;
                one_header = one;
                body = body;
                received = received;
                authentic =
                    verify_signature-IsAuthentic l.is_space l.hmac body header k clock signed;
                event = event;
                parsed = parsed;
                value = value;
                loaded = loaded;
                sound = sound;
                processed = processed;
              }))
