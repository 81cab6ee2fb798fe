-- ===== src/Billing/Service/Crediting.antt =====
-- Every credit that billing grants stands in one application of an invoice.
use procure_delta.Prelude.{
  ℕ, ◌+◌, ◌≡◌, String, true, Option, none, some, List, [], ◌∷◌, arith, ◌==◌, if◌then◌else◌, inl,
  inr, Bool-cases, Option-cases, find, ◌∙◌, ap, sym,
}
use procure_delta.Prelude.Int.{ℤ, pos, negsuc}
use procure_delta.Prelude.Actions.{Result, ok, err, bind_inv}
use procure_delta.Credits.Schema.{Db, CreditError, CreditAccount, grant, billing_sandbox}
use procure_delta.Credits.Session.{CreditMutation}
use procure_delta.Credits.Service.Tables.{total}
use procure_delta.Credits.Service.Effects.{GrantEntered, grant_entered}
use procure_delta.Billing.Schema.{
  InvoiceFacts, BillingCustomerMapping, BillingPricePolicy, BillingInvoiceApplication, BillingDb,
  SandboxEvent, BillingEventObservation,
}
use procure_delta.Billing.Contract.{valid_scope}
use procure_delta.Billing.Service.{
  BillingResult, observe, process_observed, process_event, register_customer, customer_or_new,
  register_price, price_or_new,
}
use procure_delta.Billing.Invoice.{
  credit_result, in_ledger, Verdict, invoice_reference, invoice_grant, apply_mutation,
  grant_invoice, match_invoice, apply_invoice, judge_invoice, same_price,
}

-- The credit units of the applications of one account.
unfoldable pub units : ℕ → List BillingInvoiceApplication → ℕ
units k [] = 0
units k (a ∷ rows) = (if a.account_id == k then a.credit_units else 0) + units k rows

abbrev pub Matches : ℕ → BillingDb → Type 0
Matches k db = total grant k db.credit.entries ≡ units k db.applications

-- A call of the credit service that returned, seen from the billing tables.
credit_result_inv :
    {A : Type 0} (db : BillingDb) (r : Result CreditError A × Db) {a : A} {s : BillingDb}
    → credit_result db r ≡ (ok a, s)
    → (r ≡ (ok a, s.credit)) × (s.applications ≡ db.applications)
credit_result_inv db (ok b, c) h = ground arith
credit_result_inv db (err e, c) h = cc

module _ (now k : ℕ) (scope : String) (invoice : InvoiceFacts) (reason : Option String)
    (mapping : BillingCustomerMapping) (policy : BillingPricePolicy) where
  apply_mutation-Matches :
      (m : CreditMutation) (s : BillingDb) (before : Db) {v : Verdict} {db' : BillingDb}
      → total grant k before.entries ≡ units k s.applications
      → (m.applied ≡ true → GrantEntered policy.credit_units m before s.credit)
      → apply_mutation scope invoice reason mapping policy m s ≡ (ok v, db')
      → Matches k db'
  unfolding apply_mutation total units
  apply_mutation-Matches m s before matched entered h = elim (Bool-cases m.applied) [
    | inl e ↦ let g = entered e in ground (arith, g.entries, g.account, g.operation, g.amount)
    | inr e ↦ ground arith
  ]

  grant_invoice-Matches :
      (account : CreditAccount) (db : BillingDb) {v : Verdict} {db' : BillingDb}
      → Matches k db
      → grant_invoice now scope invoice reason mapping policy (some account) db ≡ (ok v, db')
      → Matches k db'
  unfolding grant_invoice
  grant_invoice-Matches account db {v} {db'} matched h =
      let ref = invoice_reference invoice in
      let call = invoice_grant now invoice policy account in
      let (m, s, called, rest) =
        bind_inv (in_ledger call) (apply_mutation scope invoice reason mapping policy) db h in
      let (returned, same) = credit_result_inv db (call db.credit) called in
      apply_mutation-Matches m s db.credit (matched ∙ ap (units k) (sym same))
        (λ applied.
          grant_entered now policy.credit_units account.owner_user_id ref none billing_sandbox
            db.credit returned applied)
        rest

module _ (now k : ℕ) (scope : String) (invoice : InvoiceFacts) (reason : Option String) where
  match_invoice-Matches :
      (mapping : Option BillingCustomerMapping) (policy : Option BillingPricePolicy)
      (db : BillingDb) {v : Verdict} {db' : BillingDb}
      → Matches k db
      → match_invoice now scope invoice reason mapping policy db ≡ (ok v, db')
      → Matches k db'
  unfolding match_invoice
  match_invoice-Matches none policy db matched h = ground arith
  match_invoice-Matches (some mapping) none db matched h = ground arith
  match_invoice-Matches (some mapping) (some policy) db matched h =
      elim (Bool-cases (same_price policy invoice)) [
        | inr e ↦ let h' = rw e at h in ground arith
        | inl e ↦ elim (Option-cases (find (λ a. a.id == mapping.account_id) db.credit.accounts)) [
          | inl missing ↦ let h' = rw (e, missing) at h in unfold grant_invoice in cc
          | inr (account, found) ↦
              grant_invoice-Matches now k scope invoice reason mapping policy account db matched
                (rw (e, found) at h)
        ]
      ]

  apply_invoice-Matches :
      (application : Option BillingInvoiceApplication) (db : BillingDb) {v : Verdict}
      {db' : BillingDb}
      → Matches k db
      → apply_invoice now scope invoice reason application db ≡ (ok v, db')
      → Matches k db'
  unfolding apply_invoice
  apply_invoice-Matches (some a) db matched h = ground arith
  apply_invoice-Matches none db matched h = match_invoice-Matches _ _ db matched h

judge_invoice-Matches :
    (now k : ℕ) (scope : String) (reason : Option String) (invoice : Option InvoiceFacts)
    (db : BillingDb) {v : Verdict} {db' : BillingDb}
    → Matches k db
    → judge_invoice now scope reason invoice db ≡ (ok v, db')
    → Matches k db'
unfolding judge_invoice
judge_invoice-Matches now k scope reason none db matched h = ground arith
judge_invoice-Matches now k scope reason (some invoice) db matched h =
    apply_invoice-Matches now k scope invoice reason _ db matched h

observe-Matches :
    (k : ℕ) (scope : String) (event : SandboxEvent) (v : Verdict) (db : BillingDb)
    {r : BillingResult} {db' : BillingDb}
    → Matches k db
    → observe scope event v db ≡ (ok r, db')
    → Matches k db'
unfolding observe
observe-Matches k scope event v db matched h = ground arith

process_observed-Matches :
    (now k : ℕ) (scope : String) (event : SandboxEvent) (previous : Option BillingEventObservation)
    (db : BillingDb) {r : BillingResult} {db' : BillingDb}
    → Matches k db
    → process_observed now scope event previous db ≡ (ok r, db')
    → Matches k db'
unfolding process_observed
process_observed-Matches now k scope event (some o) db matched h = ground arith
process_observed-Matches now k scope event none db matched h =
    let (v, s, judged, rest) =
      bind_inv (judge_invoice now scope event.review_reason event.invoice) (observe scope event) db
        h in
    observe-Matches k scope event v s
      (judge_invoice-Matches now k scope event.review_reason event.invoice db matched judged) rest

pub process_event-Matches :
    (now k : ℕ) (scope : String) (event : SandboxEvent) (db : BillingDb) {r : BillingResult}
    {db' : BillingDb}
    → Matches k db
    → process_event now scope event db ≡ (ok r, db')
    → Matches k db'
unfolding process_event
process_event-Matches now k scope event db matched h = elim (Bool-cases (valid_scope scope)) [
  | inl e ↦ process_observed-Matches now k scope event _ db matched (rw e at h)
  | inr e ↦ let h' = rw e at h in cc
]

pub register_customer-Matches :
    (sha256 : String → String) (now k : ℕ) (scope customer : String) (db : BillingDb)
    {r : BillingCustomerMapping} {db' : BillingDb}
    → Matches k db
    → register_customer sha256 now scope customer db ≡ (ok r, db')
    → Matches k db'
unfolding register_customer customer_or_new
register_customer-Matches sha256 now k scope customer db matched h = ground arith

pub register_price-Matches :
    (k : ℕ) (scope price currency : String) (amount units : ℤ) (db : BillingDb)
    {r : BillingPricePolicy} {db' : BillingDb}
    → Matches k db
    → register_price scope price currency amount units db ≡ (ok r, db')
    → Matches k db'
unfolding register_price price_or_new
register_price-Matches k scope price currency (pos amount) (pos n) db matched h = ground arith
register_price-Matches k scope price currency (negsuc amount) n db matched h = ground arith
register_price-Matches k scope price currency (pos amount) (negsuc n) db matched h = ground arith
