-- ===== src/Billing/Schema.antt =====
-- The billing tables of apps/api/app/models/schema.py beside the credit tables, and the events of
-- apps/api/app/billing/contract.py. A primary key comes from the credit tables' counter. JSON
-- snapshots of facts (`facts_json`) are kept for review only and are left out.
use procure_delta.Prelude.{ℕ, String, Bool, true, false, Option, List, []}
use procure_delta.Prelude.Actions.{Action}
use procure_delta.Credits.Schema.{Db, CreditError, empty_db}

-- `InvoiceFacts`; `digest` is the property `canonical_digest(asdict(self))`.
pub record InvoiceFacts : Type 0 where
  pub invoice_id : String
  pub customer_id : String
  pub subscription_id : String
  pub price_id : String
  pub currency : String
  pub amount : ℕ
  pub quantity : ℕ
  pub period_start : ℕ
  pub period_end : ℕ
  pub billing_reason : String
  pub digest : String

pub record SandboxEvent : Type 0 where
  pub event_id : String
  pub event_type : String
  pub created : ℕ
  pub object_id : String
  pub customer_id : Option String
  pub digest : String
  pub invoice : Option InvoiceFacts
  pub review_reason : Option String

pub data Outcome : Type 0 where
  applied duplicate observed review : Outcome

abbrev pub is_applied : Outcome → Bool
is_applied applied = true
is_applied duplicate = false
is_applied observed = false
is_applied review = false

abbrev pub is_duplicate : Outcome → Bool
is_duplicate duplicate = true
is_duplicate applied = false
is_duplicate observed = false
is_duplicate review = false

pub record BillingCustomerMapping : Type 0 where
  pub id : ℕ
  pub scope : String
  pub customer_id : String
  pub account_id : ℕ

pub record BillingPricePolicy : Type 0 where
  pub id : ℕ
  pub scope : String
  pub price_id : String
  pub currency : String
  pub amount : ℕ
  pub credit_units : ℕ

pub record BillingInvoiceApplication : Type 0 where
  pub id : ℕ
  pub scope : String
  pub invoice_id : String
  pub invoice_digest : String
  pub account_id : ℕ
  pub policy_id : ℕ
  pub credit_units : ℕ
  pub ledger_entry_id : ℕ

pub record BillingEventObservation : Type 0 where
  pub id : ℕ
  pub scope : String
  pub event_id : String
  pub event_type : String
  pub event_created : ℕ
  pub object_id : String
  pub customer_id : Option String
  pub event_digest : String
  pub outcome : Outcome
  pub review_reason : Option String
  pub application_id : Option ℕ

pub record BillingDb : Type 0 where
  pub credit : Db
  pub customers : List BillingCustomerMapping
  pub prices : List BillingPricePolicy
  pub applications : List BillingInvoiceApplication
  pub observations : List BillingEventObservation

abbrev pub empty_billing : BillingDb
empty_billing = record {
  credit = empty_db;
  customers = [];
  prices = [];
  applications = [];
  observations = [];
}

-- `BillingInputError`, `BillingConflict`, and the errors of the credit service.
pub data BillingError : Type 0 where
  bad_input conflict : BillingError
  credit_error : CreditError → BillingError

abbrev pub Billing : Type 0 → Type 0
Billing = Action BillingDb BillingError
