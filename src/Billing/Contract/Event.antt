-- ===== src/Billing/Contract/Event.antt =====
-- `parse_event` of apps/api/app/billing/contract.py. The JSON parser is a parameter, which calls the
-- hook for each object; the canonical digests of JSON values are parameters too. The facts that the
-- event keeps for review are left out.
use procure_delta.Prelude.{
  ℕ, String, Bool, true, false, not, ◌&&◌, ◌||◌, Option, none, some, List, [], ◌∷◌, ◌==◌, leb,
  str_eq, length, if◌then◌else◌,
}
use procure_delta.Prelude.Int.{pos, negsuc}
use procure_delta.Prelude.Json.{
  Json, null, bool, integer, real, text, array, object, no_items, item, JsonFields, no_fields,
  field, get, has_field, is_false, text_is,
}
use procure_delta.Billing.Schema.{InvoiceFacts, SandboxEvent}
use procure_delta.Billing.Contract.{codes, all, is_lower}
use procure_delta.Billing.Contract.Parsing.{
  Checked, accepted, reviewed, rejected, ◌>>=◌, ◌>>◌, reject_if, require_id, require_object,
  require_natural, max_timestamp, not_member, invoice_of,
}

abbrev pub max_body_bytes : ℕ
max_body_bytes = 262144

-- `_unique_object`: the pairs as a dictionary, unless a key comes twice.
abbrev pub add_pairs : JsonFields → List (String × Json) → Option JsonFields
add_pairs seen [] = some seen
add_pairs seen ((key, value) ∷ pairs) =
    if has_field key seen then none else add_pairs (field key value seen) pairs

unfoldable pub unique_object : List (String × Json) → Option JsonFields
unique_object = add_pairs no_fields

-- `bool(value)`
abbrev pub is_truthy : Json → Bool
is_truthy null = false
is_truthy (bool b) = b
is_truthy (integer n) = elim n [ pos k ↦ not (k == 0) | negsuc _ ↦ true ]
is_truthy (real zero _) = not zero
is_truthy (text s) = not (str_eq s "")
is_truthy (array xs) = elim xs [ no_items ↦ false | item _ _ ↦ true ]
is_truthy (object fs) = elim fs [ no_fields ↦ false | field _ _ _ ↦ true ]

-- `[a-z_.]{1,100}`
abbrev pub event_type_pattern : List ℕ → Bool
event_type_pattern cs =
    leb 1 (length cs)
    && leb (length cs) 100
    && all (λ c. is_lower c || (c == b'_') || (c == b'.')) cs

abbrev pub require_event_type : Json → Checked String
require_event_type (text s) = reject_if (not (event_type_pattern (codes s))) >> accepted s
require_event_type null = rejected
require_event_type (bool _) = rejected
require_event_type (integer _) = rejected
require_event_type (real _ _) = rejected
require_event_type (array _) = rejected
require_event_type (object _) = rejected

-- The facts, or the reason for a review.
abbrev pub Reading : Type 0
Reading = Option InvoiceFacts × Option String

abbrev pub invoice_reading : Checked InvoiceFacts → Checked Reading
invoice_reading (accepted facts) = accepted (some facts, none)
invoice_reading (reviewed why) = accepted (none, some why)
invoice_reading rejected = rejected

abbrev pub subscription_statuses : List String
subscription_statuses =
    "incomplete" ∷ "incomplete_expired" ∷ "trialing" ∷ "active" ∷ "past_due" ∷ "canceled" ∷ "unpaid"
    ∷ "paused" ∷ []

abbrev pub is_subscription_event : String → Bool
is_subscription_event kind =
    str_eq kind "customer.subscription.created"
    || str_eq kind "customer.subscription.updated"
    || str_eq kind "customer.subscription.deleted"

abbrev pub read_customer : Bool → Json → Checked (Option String)
read_customer false customer = accepted none
read_customer true customer = require_id "cus_" customer >>= λ id. accepted (some id)

module _ (str : ℕ → String) (facts_digest : InvoiceFacts → String) where
  abbrev pub read_paid : String → JsonFields → Checked Reading
  read_paid id obj =
      reject_if (not (text_is "invoice" (get "object" obj)))
      >> invoice_reading (invoice_of str facts_digest id obj)

  abbrev pub read_failed : String → JsonFields → Checked Reading
  read_failed id obj = do
    reject_if (not (text_is "invoice" (get "object" obj)))
    require_id "in_" (text id)
    accepted (none, none)

  abbrev pub read_subscription : String → JsonFields → Checked Reading
  read_subscription id obj = do
    reject_if (not (text_is "subscription" (get "object" obj)))
    require_id "sub_" (text id)
    reject_if (not_member subscription_statuses (get "status" obj))
    accepted (none, none)

  -- The branches on the type of the event.
  unfoldable pub event_reading : String → String → JsonFields → Checked Reading
  event_reading kind id obj =
      if str_eq kind "invoice.paid"
      then read_paid id obj
      else if str_eq kind "invoice.payment_failed"
      then read_failed id obj
      else if is_subscription_event kind
      then read_subscription id obj
      else accepted (none, some "unsupported_event_type")

  unfoldable pub read_event : (Json → String) → Json → Checked SandboxEvent
  read_event digest value = do
    raw ← require_object value
    reject_if (
        not (text_is "event" (get "object" raw))
        || not (text_is "2025-03-31.basil" (get "api_version" raw))
        || not (is_false (get "livemode" raw))
        || has_field "account" raw
        || has_field "context" raw)
    event_id ← require_id "evt_" (get "id" raw)
    event_type ← require_event_type (get "type" raw)
    created ← require_natural 0 max_timestamp (get "created" raw)
    content ← require_object (get "data" raw)
    obj ← require_object (get "object" content)
    object_id ← require_id "" (get "id" obj)
    reject_if (not (is_false (get "livemode" obj)))
    customer ← read_customer (is_truthy (get "customer" obj)) (get "customer" obj)
    reading ← event_reading event_type object_id obj
    accepted (record {
      event_id = event_id;
      event_type = event_type;
      created = created;
      object_id = object_id;
      customer_id = customer;
      digest = digest value;
      invoice = reading.0;
      review_reason = reading.1;
    })

  abbrev pub loaded : (Json → String) → Option Json → Checked SandboxEvent
  loaded digest none = rejected
  loaded digest (some value) = read_event digest value

  -- The hook of the parser rejects an object in which a key comes twice.
  unfoldable pub parse_event :
      ((List (String × Json) → Option JsonFields) → List ℕ → Option Json)
      → (Json → String)
      → List ℕ
      → Checked SandboxEvent
  parse_event loads digest body =
      if leb (length body) max_body_bytes
      then loaded digest (loads unique_object body)
      else rejected
