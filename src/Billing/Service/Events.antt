-- ===== src/Billing/Service/Events.antt =====
-- The events of an invoice that was applied, in apps/api/app/billing/service.py.
use procure_delta.Prelude.{
  ℕ, ◌≡◌, String, refl, true, false, Option, none, some, arith, find, eq_refl, inl, inr, Bool-cases,
  Option-cases, is_some, ◌==◌,
}
use procure_delta.Prelude.Actions.{Result, ok, err, bind_inv}
use procure_delta.Credits.Session.{CreditMutation}
use procure_delta.Billing.Schema.{
  InvoiceFacts, SandboxEvent, is_applied, BillingCustomerMapping, BillingPricePolicy,
  BillingEventObservation, BillingDb, BillingError,
}
use procure_delta.Billing.Contract.{valid_scope}
use procure_delta.Billing.Invoice.{
  Verdict, in_ledger, invoice_grant, apply_mutation, grant_invoice, match_invoice, apply_invoice,
  judge_invoice, has_invoice, has_event, same_price,
}
use procure_delta.Billing.Service.{BillingResult, observe, process_observed, process_event}

-- A recorded application of an invoice.
abbrev pub Applied : String → InvoiceFacts → BillingDb → Type 0
Applied scope invoice db =
    is_some (find (has_invoice scope invoice.invoice_id) db.applications) ≡ true

module _ (now : ℕ) (scope : String) (invoice : InvoiceFacts) (reason : Option String) where
  apply_mutation-Applied :
      (mapping : BillingCustomerMapping) (policy : BillingPricePolicy) (m : CreditMutation)
      (s : BillingDb) {v : Verdict} {db' : BillingDb}
      → apply_mutation scope invoice reason mapping policy m s ≡ (ok v, db')
      → Applied scope invoice db'
  unfolding apply_mutation
  apply_mutation-Applied mapping policy m s h =
      ground (arith, eq_refl scope, eq_refl invoice.invoice_id)

  match_invoice-Applied :
      (mapping : Option BillingCustomerMapping) (policy : Option BillingPricePolicy)
      (db : BillingDb) {v : Verdict} {db' : BillingDb}
      → match_invoice now scope invoice reason mapping policy db ≡ (ok v, db')
      → is_applied v.status ≡ true
      → Applied scope invoice db'
  unfolding match_invoice
  match_invoice-Applied none policy db h done = ground arith
  match_invoice-Applied (some mapping) none db h done = ground arith
  match_invoice-Applied (some mapping) (some policy) db h done =
      elim (Bool-cases (same_price policy invoice)) [
        | inr e ↦ let h' = rw e at h in ground arith
        | inl e ↦ elim (Option-cases (find (λ a. a.id == mapping.account_id) db.credit.accounts)) [
          | inl missing ↦ let h' = rw (e, missing) at h in unfold grant_invoice in cc
          | inr (account, found) ↦
              let h' = rw (e, found) at h in
              unfold grant_invoice in
              (let (m, s, called, rest) =
                  bind_inv (in_ledger (invoice_grant now invoice policy account))
                    (apply_mutation scope invoice reason mapping policy) db h' in
                apply_mutation-Applied mapping policy m s rest)
        ]
      ]

judge_invoice-Applied :
    (now : ℕ) (scope : String) (reason : Option String) (invoice : InvoiceFacts) (db : BillingDb)
    {v : Verdict} {s : BillingDb}
    → judge_invoice now scope reason (some invoice) db ≡ (ok v, s)
    → is_applied v.status ≡ true
    → Applied scope invoice s
judge_invoice-Applied now scope reason invoice db h done =
    elim (Option-cases (find (has_invoice scope invoice.invoice_id) db.applications)) [
      | inl new ↦
          unfold judge_invoice apply_invoice in
          match_invoice-Applied now scope invoice reason _ _ db (rw new at h) done
      | inr (a, old) ↦ unfold judge_invoice apply_invoice in (let h' = rw old at h in ground arith)
    ]

observe-Applied :
    (scope : String) (event : SandboxEvent) (invoice : InvoiceFacts) (v : Verdict) (s : BillingDb)
    {r : BillingResult} {db' : BillingDb}
    → (is_applied v.status ≡ true → Applied scope invoice s)
    → observe scope event v s ≡ (ok r, db')
    → r.credited ≡ true
    → Applied scope invoice db'
unfolding observe
observe-Applied scope event invoice v s recorded h done = ground (arith, recorded)

pub process_event-Applied :
    (now : ℕ) (scope : String) (event : SandboxEvent) (invoice : InvoiceFacts) (db : BillingDb)
    {r : BillingResult} {db' : BillingDb}
    → event.invoice ≡ some invoice
    → process_event now scope event db ≡ (ok r, db')
    → r.credited ≡ true
    → Applied scope invoice db'
unfolding process_event process_observed
process_event-Applied now scope event invoice db has h done =
    elim (Bool-cases (valid_scope scope)) [
      | inr e ↦ let bad = rw e at h in cc
      | inl e ↦ elim (Option-cases (find (has_event scope event.event_id) db.observations)) [
        | inr (o, old) ↦ let h' = rw (e, old) at h in ground arith
        | inl new ↦
            let (v, s, judged, rest) =
              bind_inv (judge_invoice now scope event.review_reason event.invoice)
                (observe scope event) db (rw (e, new) at h) in
            observe-Applied scope event invoice v s
              (judge_invoice-Applied now scope event.review_reason invoice db {v = v} {s = s}
                (rw has at judged))
              rest done
      ]
    ]

-- A call that credits nothing: no entry, no account and no reservation changes.
abbrev pub CreditsNothing : BillingDb → Result BillingError BillingResult × BillingDb → Type 0
CreditsNothing db (ok r, s) =
    (r.credited ≡ false)
    × (s.credit.entries ≡ db.credit.entries)
    × (s.credit.accounts ≡ db.credit.accounts)
    × (s.credit.reservations ≡ db.credit.reservations)
CreditsNothing db (err _, s) = s ≡ db

module _ (now : ℕ) (scope : String) (event : SandboxEvent) (invoice : InvoiceFacts) (db : BillingDb)
    (has : event.invoice ≡ some invoice) (recorded : Applied scope invoice db) where
  process_observed-CreditsNothing :
      (previous : Option BillingEventObservation)
      → CreditsNothing db (process_observed now scope event previous db)
  unfolding process_observed judge_invoice apply_invoice observe
  process_observed-CreditsNothing (some o) = ground arith
  process_observed-CreditsNothing none = rw has (ground (arith, recorded))

  pub process_event-CreditsNothing : CreditsNothing db (process_event now scope event db)
  unfolding process_event
  process_event-CreditsNothing = elim (Bool-cases (valid_scope scope)) [
    | inl e ↦ rw e (process_observed-CreditsNothing _)
    | inr e ↦ rw e refl
  ]
