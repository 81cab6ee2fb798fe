-- ===== src/Billing/Invoice.antt =====
-- The invoice part of `process_event` in apps/api/app/billing/service.py: the lookups, the grant of
-- credits and the application row.
use Prim.Native.String.{◌++◌ as join}
use procure_delta.Prelude.{
  ℕ, ◌+◌, String, Bool, not, ◌&&◌, ◌||◌, Option, none, some, ◌∷◌, ◌==◌, str_eq, if◌then◌else◌, find,
}
use procure_delta.Prelude.Actions.{
  Result, ok, err, pure, raise, gets, modify, raise_if, ◌>>=◌, ◌>>◌,
}
use procure_delta.Prelude.Int.{pos}
use procure_delta.Credits.Schema.{billing_sandbox, Db, CreditError, CreditAccount, Tx}
use procure_delta.Credits.Session.{CreditMutation, Reference}
use procure_delta.Credits.Service.{grant_credits}
use procure_delta.Billing.Schema.{
  InvoiceFacts, Outcome, applied, duplicate, observed, BillingCustomerMapping, BillingPricePolicy,
  BillingInvoiceApplication, BillingEventObservation, BillingDb, BillingError, conflict,
  credit_error, Billing,
}

-- A call of the credit service in the same session.
abbrev pub credit_result :
    {A : Type 0} → BillingDb → Result CreditError A × Db → Result BillingError A × BillingDb
credit_result db (ok a, credit) = (ok a, record db { credit = credit })
credit_result db (err e, credit) = (err (credit_error e), record db { credit = credit })

abbrev pub in_ledger : {A : Type 0} → Tx A → Billing A
in_ledger m db = credit_result db (m db.credit)

-- The next primary key.
abbrev pub fresh_id : Billing ℕ
fresh_id db = (
  ok db.credit.next_id,
  record db { credit = record db.credit { next_id = db.credit.next_id + 1 } },
)

abbrev pub has_customer : String → String → BillingCustomerMapping → Bool
has_customer scope customer m = str_eq m.scope scope && str_eq m.customer_id customer

abbrev pub has_price : String → String → BillingPricePolicy → Bool
has_price scope price p = str_eq p.scope scope && str_eq p.price_id price

abbrev pub has_invoice : String → String → BillingInvoiceApplication → Bool
has_invoice scope invoice a = str_eq a.scope scope && str_eq a.invoice_id invoice

abbrev pub has_event : String → String → BillingEventObservation → Bool
has_event scope event o = str_eq o.scope scope && str_eq o.event_id event

-- What the invoice part of an event comes to: a status, a reason for review, an application.
pub record Verdict : Type 0 where
  pub status : Outcome
  pub reason : Option String
  pub application : Option BillingInvoiceApplication

abbrev pub verdict : Outcome → Option String → Option BillingInvoiceApplication → Billing Verdict
verdict s r a = pure (record { status = s; reason = r; application = a })

abbrev pub application_row :
    ℕ
    → String
    → InvoiceFacts
    → BillingCustomerMapping
    → BillingPricePolicy
    → ℕ
    → BillingInvoiceApplication
application_row id scope invoice mapping policy entry = record {
  id = id;
  scope = scope;
  invoice_id = invoice.invoice_id;
  invoice_digest = invoice.digest;
  account_id = mapping.account_id;
  policy_id = policy.id;
  credit_units = policy.credit_units;
  ledger_entry_id = entry;
}

abbrev pub add_application : BillingInvoiceApplication → Billing (Unit {0})
add_application a = modify (λ db. record db { applications = a ∷ db.applications })

-- The idempotency key and the reference of the grant for an invoice.
abbrev pub invoice_reference : InvoiceFacts → Reference
invoice_reference invoice = record {
  idempotency_key = join "sandbox-invoice:" invoice.invoice_id;
  reference_type = "sandbox_invoice";
  reference_key = invoice.invoice_id;
}

-- The application of the grant: a ledger entry that is not new, or is another account's, is corrupt.
unfoldable pub apply_mutation :
    String
    → InvoiceFacts
    → Option String
    → BillingCustomerMapping
    → BillingPricePolicy
    → CreditMutation
    → Billing Verdict
apply_mutation scope invoice reason mapping policy mutation = do
  raise_if (not mutation.applied || not (mutation.account.id == mapping.account_id)) conflict
  id ← fresh_id
  let row = application_row id scope invoice mapping policy mutation.ledger.id
  add_application row
  verdict applied reason (some row)

-- The metadata of the grant, which is the scope and the key of the policy, is left out.
abbrev pub invoice_grant : ℕ → InvoiceFacts → BillingPricePolicy → CreditAccount → Tx CreditMutation
invoice_grant now invoice policy account =
    grant_credits now account.owner_user_id (pos policy.credit_units) (invoice_reference invoice)
      none billing_sandbox

-- The grant for an invoice whose customer and price are known.
unfoldable pub grant_invoice :
    ℕ
    → String
    → InvoiceFacts
    → Option String
    → BillingCustomerMapping
    → BillingPricePolicy
    → Option CreditAccount
    → Billing Verdict
grant_invoice now scope invoice reason mapping policy none = raise conflict
grant_invoice now scope invoice reason mapping policy (some account) = do
  mutation ← in_ledger (invoice_grant now invoice policy account)
  apply_mutation scope invoice reason mapping policy mutation

abbrev pub same_price : BillingPricePolicy → InvoiceFacts → Bool
same_price policy invoice =
    str_eq policy.currency invoice.currency && (policy.amount == invoice.amount)

unfoldable pub match_invoice :
    ℕ
    → String
    → InvoiceFacts
    → Option String
    → Option BillingCustomerMapping
    → Option BillingPricePolicy
    → Billing Verdict
match_invoice now scope invoice reason none policy =
    verdict observed (some "unmapped_customer") none
match_invoice now scope invoice reason (some mapping) none =
    verdict observed (some "unmapped_price") none
match_invoice now scope invoice reason (some mapping) (some policy) =
    if same_price policy invoice
    then (do
      account ← gets (λ db. find (λ a. a.id == mapping.account_id) db.credit.accounts)
      grant_invoice now scope invoice reason mapping policy account)
    else verdict observed (some "price_policy_mismatch") none

unfoldable pub apply_invoice :
    ℕ → String → InvoiceFacts → Option String → Option BillingInvoiceApplication → Billing Verdict
apply_invoice now scope invoice reason (some a) =
    if str_eq a.invoice_digest invoice.digest
    then verdict duplicate reason (some a)
    else raise conflict
apply_invoice now scope invoice reason none = do
  mapping ← gets (λ db. find (has_customer scope invoice.customer_id) db.customers)
  policy ← gets (λ db. find (has_price scope invoice.price_id) db.prices)
  match_invoice now scope invoice reason mapping policy

unfoldable pub judge_invoice : ℕ → String → Option String → Option InvoiceFacts → Billing Verdict
judge_invoice now scope reason none = verdict observed reason none
judge_invoice now scope reason (some invoice) = do
  application ← gets (λ db. find (has_invoice scope invoice.invoice_id) db.applications)
  apply_invoice now scope invoice reason application
