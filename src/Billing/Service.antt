-- ===== src/Billing/Service.antt =====
-- apps/api/app/billing/service.py: one transaction per call. The advisory locks serialize the calls
-- that meet, so a call is one action. SHA-256 is a parameter: the digests that the code compares are
-- fields of the events, and the owner name of a sandbox account is a digest of scope and customer.
pub mod Crediting
pub mod Events
use Prim.Native.String.{◌++◌ as join}
use mathlib.Core.Option
use procure_delta.Prelude.{
  ℕ, ◌+◌, ◌^◌, ◌*◌, String, Bool, true, false, not, ◌&&◌, ◌||◌, Option, none, some, List, [], ◌∷◌,
  ltb, leb, ◌==◌, str_eq, if◌then◌else◌, find, is_some,
}
use procure_delta.Prelude.Actions.{
  Result, ok, err, pure, raise, gets, modify, raise_if, ◌>>=◌, ◌>>◌,
}
use procure_delta.Prelude.Int.{ℤ, pos, negsuc}
use procure_delta.Credits.Schema.{billing_sandbox, max_integer, Db, CreditError, CreditAccount, Tx}
use procure_delta.Credits.Session.{CreditMutation, Reference, owned_by}
use procure_delta.Credits.Service.{grant_credits}
use procure_delta.Billing.Contract.{valid_scope, valid_id, valid_currency}
use procure_delta.Billing.Schema.{
  InvoiceFacts, SandboxEvent, Outcome, applied, duplicate, observed, review, is_applied,
  is_duplicate, BillingCustomerMapping, BillingPricePolicy, BillingInvoiceApplication,
  BillingEventObservation, BillingDb, BillingError, bad_input, conflict, credit_error, Billing,
}
use procure_delta.Billing.Invoice.{
  fresh_id, has_customer, has_price, has_event, Verdict, judge_invoice,
}

pub record BillingResult : Type 0 where
  pub status : Outcome
  pub credited : Bool
  pub duplicate : Bool
  pub review_reason : Option String

-- `if review is not None: status = "review"`
abbrev pub final_status : Verdict → Outcome
final_status v = if is_some v.reason then review else v.status

abbrev pub application_id : Option BillingInvoiceApplication → Option ℕ
application_id none = none
application_id (some a) = some a.id

abbrev pub observation_row : ℕ → String → SandboxEvent → Verdict → BillingEventObservation
observation_row id scope event v = record {
  id = id;
  scope = scope;
  event_id = event.event_id;
  event_type = event.event_type;
  event_created = event.created;
  object_id = event.object_id;
  customer_id = event.customer_id;
  event_digest = event.digest;
  outcome = final_status v;
  review_reason = v.reason;
  application_id = application_id v.application;
}

unfoldable pub observe : String → SandboxEvent → Verdict → Billing BillingResult
observe scope event v = do
  id ← fresh_id
  modify (λ db. record db { observations = observation_row id scope event v ∷ db.observations })
  pure (record {
    status = final_status v;
    credited = is_applied (final_status v);
    duplicate = is_duplicate (final_status v);
    review_reason = v.reason;
  })

unfoldable pub process_observed :
    ℕ → String → SandboxEvent → Option BillingEventObservation → Billing BillingResult
process_observed now scope event (some previous) =
    if str_eq previous.event_digest event.digest
    then pure (record {
      status = previous.outcome;
      credited = false;
      duplicate = true;
      review_reason = previous.review_reason;
    })
    else raise conflict
process_observed now scope event none = do
  v ← judge_invoice now scope event.review_reason event.invoice
  observe scope event v

-- A digest of an event id has settled what to do before; otherwise the event is judged and observed.
unfoldable pub process_event : ℕ → String → SandboxEvent → Billing BillingResult
process_event now scope event = do
  raise_if (not (valid_scope scope)) bad_input
  previous ← gets (λ db. find (has_event scope event.event_id) db.observations)
  process_observed now scope event previous

-- The two rows of a new customer.
abbrev pub add_customer_rows : ℕ → String → ℕ → BillingCustomerMapping → BillingDb → BillingDb
add_customer_rows now owner account mapping db = record db {
  credit = record db.credit {
    accounts =
        record {
          id = account;
          owner_user_id = owner;
          account_kind = billing_sandbox;
          available_credits = 0;
          reserved_credits = 0;
          updated_at = now;
        }
        ∷ db.credit.accounts;
  };
  customers = mapping ∷ db.customers;
}

-- `register_customer`, where no mapping exists yet: a new sandbox account under a derived owner.
unfoldable pub new_customer : ℕ → String → String → String → Billing BillingCustomerMapping
new_customer now owner scope customer = do
  taken ← gets (λ db. find (owned_by owner) db.credit.accounts)
  raise_if (is_some taken) conflict
  account ← fresh_id
  id ← fresh_id
  modify (
      add_customer_rows now owner account
        (record { id = id; scope = scope; customer_id = customer; account_id = account }))
  pure (record { id = id; scope = scope; customer_id = customer; account_id = account })

unfoldable pub customer_or_new :
    ℕ → String → String → String → Option BillingCustomerMapping → Billing BillingCustomerMapping
unfolding new_customer
customer_or_new now owner scope customer (some existing) = pure existing
customer_or_new now owner scope customer none = new_customer now owner scope customer

unfoldable pub register_customer :
    (String → String) → ℕ → String → String → Billing BillingCustomerMapping
register_customer sha256 now scope customer = do
  raise_if (not (valid_scope scope)) bad_input
  raise_if (not (valid_id "cus_" customer)) bad_input
  existing ← gets (λ db. find (has_customer scope customer) db.customers)
  let owner = join "billing-sandbox:" (sha256 (join scope (join ":" customer)))
  customer_or_new now owner scope customer existing

abbrev pub same_policy : BillingPricePolicy → String → ℕ → ℕ → Bool
same_policy p currency amount units =
    str_eq p.currency currency && (p.amount == amount) && (p.credit_units == units)

unfoldable pub price_or_new :
    String → String → String → ℕ → ℕ → Option BillingPricePolicy → Billing BillingPricePolicy
price_or_new scope price currency amount units (some existing) =
    if same_policy existing currency amount units then pure existing else raise conflict
price_or_new scope price currency amount units none = do
  id ← fresh_id
  let row : BillingPricePolicy = record {
    id = id;
    scope = scope;
    price_id = price;
    currency = currency;
    amount = amount;
    credit_units = units;
  }
  modify (λ db. record db { prices = row ∷ db.prices })
  pure row

-- `require_integer` on an argument, which is a Python `int`
abbrev pub require_int : ℕ → ℕ → ℤ → Billing ℕ
require_int low high (pos n) = if leb low n && leb n high then pure n else raise bad_input
require_int low high (negsuc n) = raise bad_input

unfoldable pub register_price : String → String → String → ℤ → ℤ → Billing BillingPricePolicy
register_price scope price currency amount units = do
  raise_if (not (valid_scope scope)) bad_input
  raise_if (not (valid_id "price_" price)) bad_input
  price_amount ← require_int 1 max_integer amount
  price_units ← require_int 1 1000000 units
  raise_if (not (valid_currency currency)) bad_input
  existing ← gets (λ db. find (has_price scope price) db.prices)
  price_or_new scope price currency price_amount price_units existing
