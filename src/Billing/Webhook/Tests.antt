-- ===== src/Billing/Webhook/Tests.antt =====
-- A paid invoice and a signed header through apps/api/app/billing/contract.py and the endpoint.
use procure_delta.Prelude.{
  ℕ, ◌≡◌, refl, String, Bool, true, false, Option, none, some, List, [], ◌∷◌, ◌==◌,
}
use procure_delta.Prelude.Int.{pos}
use procure_delta.Prelude.Json.{
  Json, null, bool, integer, text, array, object, no_items, item, JsonFields, no_fields, field,
}
use procure_delta.Billing.Schema.{InvoiceFacts, SandboxEvent}
use procure_delta.Billing.Contract.{codes}
use procure_delta.Billing.Contract.Event.{unique_object}
use procure_delta.Billing.Contract.Signature.{
  split_commas, partition, is_hex_digest, is_timestamp, scan, verify_signature,
}
use procure_delta.Billing.Schema.{empty_billing}
use procure_delta.Billing.Webhook.{Libraries, BillingSettings, refused, stripe_sandbox}
use procure_delta.Billing.Webhook.Trusted.{IsTrusted, Leaves, stripe_sandbox-IsTrusted}
use procure_delta.Billing.Contract.Authentic.{IsAuthentic, verify_signature-IsAuthentic}

abbrev item_details : JsonFields
item_details =
    field "proration" (bool false)
      (field "subscription" (text "sub_1") (field "subscription_item" (text "si_1") no_fields))

abbrev line_parent : JsonFields
line_parent =
    field "type" (text "subscription_item_details")
      (field "subscription_item_details" (object item_details) no_fields)

abbrev price_details : JsonFields
price_details = field "price" (text "price_1") no_fields

abbrev pricing : JsonFields
pricing = field "type" (text "price_details") (
    field "price_details" (object price_details)
      (field "unit_amount_decimal" (text "500") no_fields))

abbrev period : JsonFields
period = field "start" (integer (pos 1)) (field "end" (integer (pos 2)) no_fields)

abbrev line : JsonFields
line = field "livemode" (bool false) (
    field "object" (text "line_item") (
      field "id" (text "il_1") (
        field "quantity" (integer (pos 1)) (
          field "amount" (integer (pos 500)) (
            field "currency" (text "usd") (
              field "discount_amounts" (array no_items) (
                field "taxes" (array no_items) (
                  field "parent" (object line_parent) (
                    field "pricing" (object pricing)
                      (field "period" (object period) no_fields))))))))))

abbrev lines : JsonFields
lines =
    field "object" (text "list")
      (field "has_more" (bool false) (field "data" (array (item (object line) no_items)) no_fields))

abbrev subscription_details : JsonFields
subscription_details = field "subscription" (text "sub_1") no_fields

abbrev parent : JsonFields
parent =
    field "type" (text "subscription_details")
      (field "subscription_details" (object subscription_details) no_fields)

abbrev invoice : JsonFields
invoice = field "object" (text "invoice") (
    field "id" (text "in_1") (
      field "livemode" (bool false) (
        field "customer" (text "cus_1") (
          field "amount_paid" (integer (pos 500)) (
            field "amount_remaining" (integer (pos 0)) (
              field "status" (text "paid") (
                field "billing_reason" (text "subscription_cycle") (
                  field "currency" (text "usd") (
                    field "amount_due" (integer (pos 500)) (
                      field "total" (integer (pos 500)) (
                        field "subtotal" (integer (pos 500)) (
                          field "starting_balance" (integer (pos 0)) (
                            field "ending_balance" (integer (pos 0)) (
                              field "pre_payment_credit_notes_amount" (integer (pos 0)) (
                                field "post_payment_credit_notes_amount" (integer (pos 0)) (
                                  field "total_discount_amounts" (array no_items) (
                                    field "total_taxes" (array no_items) (
                                      field "parent" (object parent)
                                        (field "lines" (object lines) no_fields)))))))))))))))))))

abbrev content : JsonFields
content = field "object" (object invoice) no_fields

abbrev event : JsonFields
event = field "object" (text "event") (
    field "api_version" (text "2025-03-31.basil") (
      field "livemode" (bool false) (
        field "id" (text "evt_1") (
          field "type" (text "invoice.paid")
            (field "created" (integer (pos 7)) (field "data" (object content) no_fields))))))

abbrev facts : InvoiceFacts
facts = record {
  invoice_id = "in_1";
  customer_id = "cus_1";
  subscription_id = "sub_1";
  price_id = "price_1";
  currency = "usd";
  amount = 500;
  quantity = 1;
  period_start = 1;
  period_end = 2;
  billing_reason = "subscription_cycle";
  digest = "d";
}

abbrev paid_event : SandboxEvent
paid_event = record {
  event_id = "evt_1";
  event_type = "invoice.paid";
  created = 7;
  object_id = "in_1";
  customer_id = some "cus_1";
  digest = "e";
  invoice = some facts;
  review_reason = none;
}

abbrev str_500 : ℕ → String
str_500 n = "500"

abbrev facts_digest : InvoiceFacts → String
facts_digest f = "d"

abbrev loads : (List (String × Json) → Option JsonFields) → List ℕ → Option Json
loads hook body = some (object event)

abbrev digest : Json → String
digest value = "e"

twice_test : unique_object (("a", null) ∷ ("b", null) ∷ ("a", null) ∷ []) ≡ none
unfolding unique_object
twice_test = refl

abbrev space : ℕ → Bool
space c = c == 32

abbrev signature : String
signature = "0123456789abcdef0123456789abcdef0123456789abcdef0123456789abcdef"

abbrev hmac : String → List ℕ → List ℕ
hmac secret message = codes signature

abbrev header : List ℕ
header = codes "t=1000, v1=0123456789ABCDEF0123456789ABCDEF0123456789ABCDEF0123456789ABCDEF"

signature_test : verify_signature hmac space (1 ∷ 2 ∷ []) header "s" 1100000000 ≡ true
unfolding verify_signature split_commas partition is_hex_digest is_timestamp scan
signature_test = refl

stale_test : verify_signature hmac space (1 ∷ 2 ∷ []) header "s" 1300000001 ≡ false
unfolding verify_signature split_commas partition is_hex_digest is_timestamp scan
stale_test = refl

verify_signature-IsAuthentic_example : IsAuthentic space hmac (1 ∷ 2 ∷ []) header "s" 1100000000
verify_signature-IsAuthentic_example =
    verify_signature-IsAuthentic space hmac (1 ∷ 2 ∷ []) header "s" 1100000000 signature_test

abbrev libraries : Libraries
libraries = record {
  is_space = space;
  hmac = hmac;
  str = str_500;
  facts_digest = facts_digest;
  canonical_digest = digest;
  loads = loads;
}

abbrev settings : BillingSettings
settings = record {
  billing_sandbox_enabled = true;
  billing_sandbox_scope = some "sandbox";
  billing_stripe_webhook_secret = some "s";
}

two_headers_test :
    stripe_sandbox libraries 1100000000 5 settings
      (header ∷ header ∷ [])
      ((1 ∷ []) ∷ [])
      empty_billing
    ≡ (refused 400, empty_billing)
unfolding stripe_sandbox
two_headers_test = refl

stripe_sandbox-IsTrusted_example :
    Leaves libraries 1100000000 5
      (IsTrusted libraries 1100000000 5 settings
        (header ∷ [])
        ((1 ∷ []) ∷ (2 ∷ []) ∷ [])
        empty_billing)
      empty_billing
      (stripe_sandbox libraries 1100000000 5 settings
        (header ∷ [])
        ((1 ∷ []) ∷ (2 ∷ []) ∷ [])
        empty_billing)
stripe_sandbox-IsTrusted_example =
    stripe_sandbox-IsTrusted libraries 1100000000 5 settings (header ∷ [])
      ((1 ∷ []) ∷ (2 ∷ []) ∷ []) empty_billing
