-- ===== src/Billing/Contract/Paid.antt =====
-- The invoices that `_invoice` of apps/api/app/billing/contract.py accepts.
use mathlib.Core.Path.{subst}
use procure_delta.Prelude.{ℕ, ◌<◌, ◌≡◌, String, List, [], ◌∷◌, All, ◌==◌, ==→eq}
use procure_delta.Prelude.Int.{pos, eq_ℤ}
use procure_delta.Prelude.Json.{
  Json, null, bool, integer, real, text, array, object, no_items, item, JsonFields, get, text_is,
}
use procure_delta.Billing.Schema.{InvoiceFacts}
use procure_delta.Billing.Contract.Parsing.{
  accepted, max_value, invoice_state, same_amounts, zero_amounts, invoice_totals, single_row,
  invoice_line, line_terms, line_period, invoice_of,
}
use procure_delta.Billing.Contract.Steps.{
  bind_accepted, review_accepted, reject_accepted, require_natural_lem, require_signed_lem,
  require_currency_lem, or3_false, not_zero, before_end, not-false, text_is_lem, eq_ℤ_lem,
  require_id_lem, require_object_lem,
}

-- One line of the invoice, for one unit at the invoice's amount and currency.
pub record IsOnlyLine (obj line : JsonFields) (f : InvoiceFacts) : Type 0 where
  pub lines : JsonFields
  pub there : get "lines" obj ≡ object lines
  pub only : get "data" lines ≡ array (item (object line) no_items)
  pub one : f.quantity ≡ 1
  pub line_quantity : get "quantity" line ≡ integer (pos 1)
  pub line_amount : get "amount" line ≡ integer (pos f.amount)
  pub line_currency : get "currency" line ≡ text f.currency

-- The invoice is paid in full, with nothing added, taken off or carried over.
pub record IsPaid (obj : JsonFields) (f : InvoiceFacts) : Type 0 where
  pub status : get "status" obj ≡ text "paid"
  pub positive : 0 < f.amount
  pub remaining : get "amount_remaining" obj ≡ integer (pos 0)
  pub amounts :
      All
        (λ name. get name obj ≡ integer (pos f.amount))
        ("amount_paid" ∷ "amount_due" ∷ "total" ∷ "subtotal" ∷ [])
  pub balances :
      All
        (λ name. get name obj ≡ integer (pos 0))
        ("starting_balance" ∷ "ending_balance" ∷ "pre_payment_credit_notes_amount"
          ∷ "post_payment_credit_notes_amount" ∷ [])
  pub currency : get "currency" obj ≡ text f.currency
  pub customer : get "customer" obj ≡ text f.customer_id
  pub invoice : get "id" obj ≡ text f.invoice_id

-- What the stages of the check ensure.
module _ (obj : JsonFields) where
  invoice_state_lem :
      (state : String × ℕ × String)
      → invoice_state obj ≡ accepted state
      → (get "status" obj ≡ text "paid")
        × (0 < state.1)
        × (get "amount_remaining" obj ≡ integer (pos 0))
        × (get "amount_paid" obj ≡ integer (pos state.1))
        × (get "currency" obj ≡ text state.2)
        × (get "customer" obj ≡ text state.0)
  unfolding invoice_state
  invoice_state_lem (customer, amount, currency) e =
      let (c, owed, e1) = bind_accepted _ _ e in
      let (a, paid, e2) = bind_accepted _ _ e1 in
      let (r, left, e3) = bind_accepted _ _ e2 in
      let (_, e4) = review_accepted _ _ _ e3 in
      let (state, e5) = review_accepted _ _ _ e4 in
      let (_, e6) = reject_accepted _ _ e5 in
      let (_, e7) = review_accepted _ _ _ e6 in
      let (cur, kept, e8) = bind_accepted _ _ e7 in
      let same_amount : a ≡ amount = cc in
      let same_customer : c ≡ customer = cc in
      let same_currency : cur ≡ currency = cc in
      let (is_paid, not_free, nothing) = or3_false _ _ _ state in
      let none_left : r ≡ 0 = ==→eq r 0 (not-false (r == 0) nothing) in
      let (paid', _, _) = require_natural_lem 0 max_value (get "amount_paid" obj) paid in
      let (left', _, _) = require_natural_lem 0 max_value (get "amount_remaining" obj) left in
      (
        text_is_lem "paid" (get "status" obj)
            (not-false (text_is "paid" (get "status" obj)) is_paid),
        rw (← same_amount) (not_zero a not_free),
        cc,
        cc,
        rw (← same_currency) (require_currency_lem (get "currency" obj) kept),
        rw (← same_customer) (require_id_lem "cus_" (get "customer" obj) owed),
      )

  same_amounts_lem :
      (amount : ℕ) (names : List String) {u : Unit {0}}
      → same_amounts amount names obj ≡ accepted u
      → All (λ name. get name obj ≡ integer (pos amount)) names
  same_amounts_lem amount [] e = tt
  same_amounts_lem amount (name ∷ names) e =
      let (n, there, e1) = bind_accepted _ _ e in
      let (same, e2) = review_accepted _ _ _ e1 in
      let (n', _, _) = require_natural_lem 0 max_value (get name obj) there in
      let equal : n ≡ amount = ==→eq n amount (not-false (n == amount) same) in
      (cc, same_amounts_lem amount names e2)

  zero_amounts_lem :
      (names : List String) {u : Unit {0}}
      → zero_amounts names obj ≡ accepted u
      → All (λ name. get name obj ≡ integer (pos 0)) names
  zero_amounts_lem [] e = tt
  zero_amounts_lem (name ∷ names) e =
      let (n, there, e1) = bind_accepted _ _ e in
      let (same, e2) = review_accepted _ _ _ e1 in
      let n' = require_signed_lem (get name obj) there in
      let equal : n ≡ pos 0 = eq_ℤ_lem n 0 (not-false (eq_ℤ n (pos 0)) same) in
      (cc, zero_amounts_lem names e2)

  single_row_lem : (j row : Json) → single_row j ≡ accepted row → j ≡ array (item row no_items)
  single_row_lem (array (item x no_items)) row e = cc
  single_row_lem (array (item x (item _ _))) row e = cc
  single_row_lem (array no_items) row e = cc
  single_row_lem null row e = cc
  single_row_lem (bool _) row e = cc
  single_row_lem (integer _) row e = cc
  single_row_lem (real _ _) row e = cc
  single_row_lem (text _) row e = cc
  single_row_lem (object _) row e = cc

  invoice_line_lem :
      (line : JsonFields)
      → invoice_line obj ≡ accepted line
      → (lines : JsonFields) × (get "lines" obj ≡ object lines)
        × (get "data" lines ≡ array (item (object line) no_items))
  unfolding invoice_line
  invoice_line_lem line e =
      let (lines, there, e1) = bind_accepted _ _ e in
      let (_, e2) = review_accepted _ _ _ e1 in
      let (row, single, e3) = bind_accepted _ _ e2 in
      let (_, _, e4) = bind_accepted _ _ e3 in
      let (l, fields, e5) = bind_accepted _ _ e4 in
      let (_, e6) = reject_accepted _ _ e5 in
      let (_, _, e7) = bind_accepted _ _ e6 in
      let same : l ≡ line = cc in
      let rows = single_row_lem (get "data" lines) row single in
      let row' = require_object_lem row l fields in
      (lines, require_object_lem (get "lines" obj) lines there, cc)

line_terms_lem :
    (id : String) (amount : ℕ) (currency : String) (line : JsonFields) (quantity : ℕ)
    → line_terms id amount currency line ≡ accepted quantity
    → (quantity ≡ 1)
      × (get "quantity" line ≡ integer (pos 1))
      × (get "amount" line ≡ integer (pos amount))
      × (get "currency" line ≡ text currency)
unfolding line_terms
line_terms_lem id amount currency line quantity e =
    let (_, e1) = review_accepted _ _ _ e in
    let (q, there, e2) = bind_accepted _ _ e1 in
    let (a, amount', e3) = bind_accepted _ _ e2 in
    let (terms, e4) = review_accepted _ _ _ e3 in
    let (_, e5) = review_accepted _ _ _ e4 in
    let same : q ≡ quantity = cc in
    let (one, equal, cur) = or3_false _ _ _ terms in
    let q1 : q ≡ 1 = ==→eq q 1 (not-false (q == 1) one) in
    let a1 : a ≡ pos amount = eq_ℤ_lem a amount (not-false (eq_ℤ a (pos amount)) equal) in
    let (q', _, _) = require_natural_lem 1 max_value (get "quantity" line) there in
    let a' = require_signed_lem (get "amount" line) amount' in
    (
      cc,
      cc,
      cc,
      text_is_lem currency (get "currency" line)
          (not-false (text_is currency (get "currency" line)) cur),
    )

line_period_lem :
    (line : JsonFields) (period : ℕ × ℕ) → line_period line ≡ accepted period → period.0 < period.1
unfolding line_period
line_period_lem line (start, finish) e =
    let (p, _, e1) = bind_accepted _ _ e in
    let (s, _, e2) = bind_accepted _ _ e1 in
    let (f, _, e3) = bind_accepted _ _ e2 in
    let (ordered, e4) = review_accepted _ _ _ e3 in
    let same_start : s ≡ start = cc in
    let same_finish : f ≡ finish = cc in rw (← same_start, ← same_finish) (before_end s f ordered)

pub accepted_same : {A : Type 0} {a b : A} → accepted a ≡ accepted b → a ≡ b
accepted_same e = cc

module _ (str : ℕ → String) (digest : InvoiceFacts → String) (id : String) (obj : JsonFields) where
  abbrev pub Established : InvoiceFacts → Type 0
  Established f =
      IsPaid obj f × ((line : JsonFields) × IsOnlyLine obj line f) × (f.period_start < f.period_end)

  -- An invoice whose facts are accepted was paid in full, with nothing added, taken off or carried over;
  -- it has one line, which bills one unit at the whole amount and in the same currency; its period has a
  -- positive length; and the facts state this amount, quantity and currency, and the invoice's
  -- identifier and customer.
  pub invoice_of-IsPaid :
      (f : InvoiceFacts) → invoice_of str digest id obj ≡ accepted f → Established f
  unfolding invoice_of invoice_totals
  invoice_of-IsPaid f e =
      let (state, h1, e1) = bind_accepted _ _ e in
      let (_, totals, e2) = bind_accepted _ _ e1 in
      let (sub, _, e3) = bind_accepted _ _ e2 in
      let (line, h4, e4) = bind_accepted _ _ e3 in
      let (quantity, h5, e5) = bind_accepted _ _ e4 in
      let (_, _, e6) = bind_accepted _ _ e5 in
      let (price, _, e7) = bind_accepted _ _ e6 in
      let (period, h8, e8) = bind_accepted _ _ e7 in
      let (invoice, h9, e9) = bind_accepted _ _ e8 in
      let (_, amounts, t1) = bind_accepted _ _ totals in
      let (_, balances, t2) = bind_accepted _ _ t1 in
      let (status, positive, remaining, paid, currency, customer) =
        invoice_state_lem obj state h1 in
      let (lines, there, only) = invoice_line_lem obj line h4 in
      let (one, line_quantity, line_amount, line_currency) =
        line_terms_lem id state.1 state.2 line quantity h5 in
      let same = accepted_same e9 in
      subst Established same (
        record {
          status = status;
          positive = positive;
          remaining = remaining;
          amounts = (
            paid,
            same_amounts_lem obj state.1 ("amount_due" ∷ "total" ∷ "subtotal" ∷ []) amounts,
          );
          balances =
              zero_amounts_lem obj
                ("starting_balance" ∷ "ending_balance" ∷ "pre_payment_credit_notes_amount"
                  ∷ "post_payment_credit_notes_amount" ∷ [])
                balances;
          currency = currency;
          customer = customer;
          invoice = require_id_lem "in_" (get "id" obj) h9;
        },
        (
          line,
          record {
            lines = lines;
            there = there;
            only = only;
            one = one;
            line_quantity = line_quantity;
            line_amount = line_amount;
            line_currency = line_currency;
          },
        ),
        line_period_lem line period h8,
      )
