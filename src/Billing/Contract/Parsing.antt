-- ===== src/Billing/Contract/Parsing.antt =====
-- `_invoice` and the checks of values in apps/api/app/billing/contract.py. `str` of an integer and the
-- digest of the facts are parameters. Every error is a BillingInputError, and so is the `TypeError` of
-- a set's member that cannot be hashed, which `parse_event` turns into one.
use procure_delta.Prelude.{
  ℕ, suc, String, Bool, true, false, not, ◌&&◌, ◌||◌, List, [], ◌∷◌, ◌==◌, leb,
}
use procure_delta.Prelude.Int.{ℤ, pos, negsuc, eq_ℤ}
use procure_delta.Prelude.Json.{
  Json, null, bool, integer, real, text, array, object, no_items, item, JsonFields, get, has_field,
  is_null, is_false, text_is, is_empty_array, is_hashable,
}
use procure_delta.Billing.Schema.{InvoiceFacts}
use procure_delta.Billing.Contract.{valid_id, valid_currency}

-- A value, a reason for a review, or a BillingInputError.
pub data Checked (A : Type 0) : Type 0 where
  accepted : A → Checked A
  reviewed : String → Checked A
  rejected : Checked A

infixl 5 ◌>>=◌ ◌>>◌
unfoldable pub ◌>>=◌ : {A B : Type 0} → Checked A → (A → Checked B) → Checked B
accepted a >>= f = f a
reviewed why >>= f = reviewed why
rejected >>= f = rejected

abbrev pub ◌>>◌ : {A B : Type 0} → Checked A → Checked B → Checked B
m >> k = m >>= λ _. k

unfoldable pub reject_if : Bool → Checked (Unit {0})
reject_if true = rejected
reject_if false = accepted tt

unfoldable pub review_if : Bool → String → Checked (Unit {0})
review_if true why = reviewed why
review_if false why = accepted tt

abbrev pub max_timestamp : ℕ
max_timestamp = 253402300799

abbrev pub max_value : ℕ
max_value = 2147483647

-- `require_integer` with a minimum that is not negative
abbrev pub require_natural : ℕ → ℕ → Json → Checked ℕ
require_natural low high (integer (pos n)) = reject_if (not (leb low n && leb n high)) >> accepted n
require_natural low high (integer (negsuc n)) = rejected
require_natural low high null = rejected
require_natural low high (bool _) = rejected
require_natural low high (real _ _) = rejected
require_natural low high (text _) = rejected
require_natural low high (array _) = rejected
require_natural low high (object _) = rejected

-- `require_integer(value, minimum=-MAX_INTEGER)`
abbrev pub require_signed : Json → Checked ℤ
require_signed (integer (pos n)) = reject_if (not (leb n max_value)) >> accepted (pos n)
require_signed (integer (negsuc n)) = reject_if (not (leb (suc n) max_value)) >> accepted (negsuc n)
require_signed null = rejected
require_signed (bool _) = rejected
require_signed (real _ _) = rejected
require_signed (text _) = rejected
require_signed (array _) = rejected
require_signed (object _) = rejected

-- `require_id`; the prefix comes with its underscore, and is empty where the code gives none.
abbrev pub require_id : String → Json → Checked String
require_id prefix (text s) = reject_if (not (valid_id prefix s)) >> accepted s
require_id prefix null = rejected
require_id prefix (bool _) = rejected
require_id prefix (integer _) = rejected
require_id prefix (real _ _) = rejected
require_id prefix (array _) = rejected
require_id prefix (object _) = rejected

-- `_object`
abbrev pub require_object : Json → Checked JsonFields
require_object (object fs) = accepted fs
require_object null = rejected
require_object (bool _) = rejected
require_object (integer _) = rejected
require_object (real _ _) = rejected
require_object (text _) = rejected
require_object (array _) = rejected

abbrev pub require_currency : Json → Checked String
require_currency (text s) = reject_if (not (valid_currency s)) >> accepted s
require_currency null = rejected
require_currency (bool _) = rejected
require_currency (integer _) = rejected
require_currency (real _ _) = rejected
require_currency (array _) = rejected
require_currency (object _) = rejected

-- `value not in {…}`
abbrev pub not_member : List String → Json → Bool
not_member [] v = true
not_member (s ∷ ss) v = not (text_is s v) && not_member ss v

-- The invoice's first amounts, and its currency.
unfoldable pub invoice_state : JsonFields → Checked (String × ℕ × String)
invoice_state obj = do
  customer ← require_id "cus_" (get "customer" obj)
  amount ← require_natural 0 max_value (get "amount_paid" obj)
  remaining ← require_natural 0 max_value (get "amount_remaining" obj)
  review_if
      (not (is_null (get "application" obj))
        || not (is_null (get "on_behalf_of" obj))
        || not (is_null (get "transfer_data" obj)))
      "unsupported_connect_invoice"
  review_if (not (text_is "paid" (get "status" obj)) || (amount == 0) || not (remaining == 0))
      "unsupported_invoice_state"
  reject_if (not (is_hashable (get "billing_reason" obj)))
  review_if
      (not_member ("subscription_create" ∷ "subscription_cycle" ∷ []) (get "billing_reason" obj))
      "unsupported_invoice_state"
  currency ← require_currency (get "currency" obj)
  accepted (customer, amount, currency)

-- The loop over the amounts that must be the one paid.
abbrev pub same_amounts : ℕ → List String → JsonFields → Checked (Unit {0})
same_amounts amount [] obj = accepted tt
same_amounts amount (name ∷ names) obj = require_natural 0 max_value (get name obj) >>= λ n.
    review_if (not (n == amount)) "invoice_adjustment" >> same_amounts amount names obj

-- The loop over the amounts that must be zero.
abbrev pub zero_amounts : List String → JsonFields → Checked (Unit {0})
zero_amounts [] obj = accepted tt
zero_amounts (name ∷ names) obj = require_signed (get name obj) >>= λ n.
    review_if (not (eq_ℤ n (pos 0))) "invoice_adjustment" >> zero_amounts names obj

unfoldable pub invoice_totals : ℕ → JsonFields → Checked (Unit {0})
invoice_totals amount obj = do
  same_amounts amount ("amount_due" ∷ "total" ∷ "subtotal" ∷ []) obj
  zero_amounts
      ("starting_balance" ∷ "ending_balance" ∷ "pre_payment_credit_notes_amount"
        ∷ "post_payment_credit_notes_amount" ∷ [])
      obj
  review_if
      (not (is_empty_array (get "total_discount_amounts" obj))
        || not (is_empty_array (get "total_taxes" obj)))
      "invoice_adjustment"

unfoldable pub invoice_subscription : JsonFields → Checked String
invoice_subscription obj = do
  parent ← require_object (get "parent" obj)
  review_if (not (text_is "subscription_details" (get "type" parent))) "unsupported_invoice_parent"
  details ← require_object (get "subscription_details" parent)
  require_id "sub_" (get "subscription" details)

-- `rows`, where it is a list of one row.
abbrev pub single_row : Json → Checked Json
single_row (array (item row no_items)) = accepted row
single_row (array (item row (item _ _))) = reviewed "unsupported_invoice_lines"
single_row (array no_items) = reviewed "unsupported_invoice_lines"
single_row null = reviewed "unsupported_invoice_lines"
single_row (bool _) = reviewed "unsupported_invoice_lines"
single_row (integer _) = reviewed "unsupported_invoice_lines"
single_row (real _ _) = reviewed "unsupported_invoice_lines"
single_row (text _) = reviewed "unsupported_invoice_lines"
single_row (object _) = reviewed "unsupported_invoice_lines"

abbrev pub check_count : Bool → Json → Checked (Unit {0})
check_count false count = accepted tt
check_count true count =
    require_natural 0 max_value count >>= λ n. review_if (not (n == 1)) "incomplete_invoice_lines"

-- The invoice's one line.
unfoldable pub invoice_line : JsonFields → Checked JsonFields
invoice_line obj = do
  lines ← require_object (get "lines" obj)
  review_if (not (text_is "list" (get "object" lines)) || not (is_false (get "has_more" lines)))
      "incomplete_invoice_lines"
  row ← single_row (get "data" lines)
  check_count (has_field "total_count" lines) (get "total_count" lines)
  line ← require_object row
  reject_if (not (is_false (get "livemode" line)) || not (text_is "line_item" (get "object" line)))
  require_id "il_" (get "id" line)
  accepted line

-- The line names no other invoice, and bills one unit at the invoice's amount. The invoice's `id` is a
-- text, which `parse_event` has checked.
unfoldable pub line_terms : String → ℕ → String → JsonFields → Checked ℕ
line_terms id amount currency line = do
  review_if (not (is_null (get "invoice" line)) && not (text_is id (get "invoice" line)))
      "unsupported_invoice_lines"
  quantity ← require_natural 1 max_value (get "quantity" line)
  line_amount ← require_signed (get "amount" line)
  review_if
      (not (quantity == 1)
        || not (eq_ℤ line_amount (pos amount))
        || not (text_is currency (get "currency" line)))
      "unsupported_invoice_lines"
  review_if
      (not (is_empty_array (get "discount_amounts" line))
        || not (is_empty_array (get "taxes" line)))
      "invoice_adjustment"
  accepted quantity

unfoldable pub line_subscription : String → JsonFields → Checked (Unit {0})
line_subscription subscription line = do
  parent ← require_object (get "parent" line)
  review_if (not (text_is "subscription_item_details" (get "type" parent)))
      "unsupported_invoice_lines"
  details ← require_object (get "subscription_item_details" parent)
  review_if
      (not (is_false (get "proration" details))
        || not (text_is subscription (get "subscription" details)))
      "unsupported_invoice_lines"
  require_id "si_" (get "subscription_item" details)
  accepted tt

unfoldable pub line_price : (ℕ → String) → ℕ → JsonFields → Checked String
line_price str amount line = do
  pricing ← require_object (get "pricing" line)
  review_if (not (text_is "price_details" (get "type" pricing))) "unsupported_invoice_lines"
  details ← require_object (get "price_details" pricing)
  price ← require_id "price_" (get "price" details)
  review_if (not (text_is (str amount) (get "unit_amount_decimal" pricing)))
      "unsupported_invoice_pricing"
  accepted price

unfoldable pub line_period : JsonFields → Checked (ℕ × ℕ)
line_period line = do
  period ← require_object (get "period" line)
  start ← require_natural 0 max_timestamp (get "start" period)
  finish ← require_natural 0 max_timestamp (get "end" period)
  review_if (leb finish start) "unsupported_invoice_period"
  accepted (start, finish)

abbrev pub text_of : Json → String
text_of (text s) = s
text_of null = ""
text_of (bool _) = ""
text_of (integer _) = ""
text_of (real _ _) = ""
text_of (array _) = ""
text_of (object _) = ""

-- `_invoice` on an object with the given `id`; the facts' digest is filled in by the caller's
-- `canonical_digest`.
unfoldable pub invoice_of :
    (ℕ → String) → (InvoiceFacts → String) → String → JsonFields → Checked InvoiceFacts
invoice_of str digest id obj = do
  state ← invoice_state obj
  invoice_totals state.1 obj
  subscription ← invoice_subscription obj
  line ← invoice_line obj
  quantity ← line_terms id state.1 state.2 line
  line_subscription subscription line
  price ← line_price str state.1 line
  period ← line_period line
  invoice ← require_id "in_" (get "id" obj)
  let facts : InvoiceFacts = record {
    invoice_id = invoice;
    customer_id = state.0;
    subscription_id = subscription;
    price_id = price;
    currency = state.2;
    amount = state.1;
    quantity = quantity;
    period_start = period.0;
    period_end = period.1;
    billing_reason = text_of (get "billing_reason" obj);
    digest = "";
  }
  accepted (record facts { digest = digest facts })
