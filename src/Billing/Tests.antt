-- ===== src/Billing/Tests.antt =====
-- Billing on concrete events: the theorems at inputs that meet their hypotheses.
use procure_delta.Prelude.{◌≡◌, refl, String, true, none, some, List, [], ◌∷◌, ◌++◌, false}
use procure_delta.Prelude.Int.{pos}
use procure_delta.Prelude.Actions.{ok}
use procure_delta.Credits.Schema.{grant}
use procure_delta.Credits.Session.{locked_account}
use procure_delta.Credits.Service.{grant_credits, grant_locked}
use procure_delta.Credits.Service.Tables.{total}
use procure_delta.Billing.Schema.{InvoiceFacts, SandboxEvent, applied, BillingDb, empty_billing}
use procure_delta.Billing.Contract.{valid_scope, valid_id, valid_currency}
use procure_delta.Billing.Invoice.{
  judge_invoice, apply_invoice, match_invoice, grant_invoice, apply_mutation,
}
use procure_delta.Billing.Service.{
  BillingResult, process_event, process_observed, observe, register_customer, customer_or_new,
  register_price, price_or_new,
}
use procure_delta.Billing.Service.Crediting.{units}
use procure_delta.Billing.Service.Events.{CreditsNothing}
use procure_delta.Billing.History.Once.{replay_result, event_replay, invoice_once}
use procure_delta.Billing.History.{
  Call, event, customer, price, history, credits_match_applications,
}

abbrev invoice_1 : InvoiceFacts
invoice_1 = record {
  invoice_id = "in_1";
  customer_id = "cus_a";
  subscription_id = "sub_a";
  price_id = "price_a";
  currency = "usd";
  amount = 500;
  quantity = 1;
  period_start = 1;
  period_end = 2;
  billing_reason = "subscription_cycle";
  digest = "d1";
}

abbrev paid : String → String → SandboxEvent
paid id digest = record {
  event_id = id;
  event_type = "invoice.paid";
  created = 1;
  object_id = "in_1";
  customer_id = some "cus_a";
  digest = digest;
  invoice = some invoice_1;
  review_reason = none;
}

abbrev setup : List Call
setup = customer 1 "sandbox" "cus_a" ∷ price "sandbox" "price_a" "usd" (pos 500) (pos 25) ∷ []

abbrev db_ready : BillingDb
db_ready = history (λ s. s) setup empty_billing

abbrev first : BillingResult
first = record { status = applied; credited = true; duplicate = false; review_reason = none }

abbrev db_paid : BillingDb
db_paid = (process_event 3 "sandbox" (paid "evt_1" "e1") db_ready).1

paid_once : process_event 3 "sandbox" (paid "evt_1" "e1") db_ready ≡ (ok first, db_paid)
unfolding history process_event process_observed judge_invoice apply_invoice match_invoice
    grant_invoice apply_mutation grant_credits locked_account grant_locked observe valid_scope
    valid_id valid_currency register_customer customer_or_new register_price price_or_new
paid_once = refl

credits_match_applications_example :
    total grant 0
      (history
        (λ s. s)
        (setup ++ event 3 "sandbox" (paid "evt_1" "e1") ∷ [])
        empty_billing).credit.entries
    ≡ units 0
        (history
          (λ s. s)
          (setup ++ event 3 "sandbox" (paid "evt_1" "e1") ∷ [])
          empty_billing).applications
credits_match_applications_example =
    credits_match_applications (λ s. s) (setup ++ event 3 "sandbox" (paid "evt_1" "e1") ∷ []) 0

-- Calls after the first event: a second delivery, a conflicting price and another customer.
abbrev between : List Call
between =
    event 4 "sandbox" (paid "evt_3" "e3")
    ∷ price "sandbox" "price_a" "usd" (pos 501) (pos 25)
    ∷ customer 5 "sandbox" "cus_b"
    ∷ []

abbrev db_later : BillingDb
db_later = history (λ s. s) between db_paid

event_replay_example :
    process_event 9 "sandbox" (paid "evt_1" "e1") db_later ≡ (ok (replay_result first), db_later)
event_replay_example =
    event_replay (λ s. s) between 3 9 "sandbox" (paid "evt_1" "e1") db_ready paid_once

invoice_once_example :
    CreditsNothing db_later (process_event 9 "sandbox" (paid "evt_2" "e2") db_later)
invoice_once_example =
    invoice_once (λ s. s) between 3 9 "sandbox" (paid "evt_1" "e1") (paid "evt_2" "e2") invoice_1
      invoice_1 db_ready refl paid_once refl refl refl
