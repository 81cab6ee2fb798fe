-- ===== src/Billing/History/Kept.antt =====
-- What the calls of apps/api/app/billing/service.py never take back: an application of an invoice,
-- and the observation of an event.
use procure_delta.Prelude.{
  ℕ, ◌≡◌, String, refl, true, Option, none, some, List, [], ◌∷◌, arith, ◌==◌, inl, inr, Bool,
  Bool-cases, Option-cases, find, is_some, eq_iff,
}
use procure_delta.Prelude.Int.{ℤ, pos, negsuc}
use procure_delta.Prelude.Actions.{Result, ok, err, bind_inv}
use procure_delta.Credits.Schema.{Db, CreditError}
use procure_delta.Credits.Session.{CreditMutation}
use procure_delta.Billing.Schema.{
  InvoiceFacts, BillingCustomerMapping, BillingPricePolicy, BillingInvoiceApplication, BillingDb,
  SandboxEvent, BillingEventObservation, BillingError,
}
use procure_delta.Billing.Contract.{valid_scope}
use procure_delta.Billing.Service.{
  BillingResult, observe, process_observed, process_event, register_customer, customer_or_new,
  register_price, price_or_new,
}
use procure_delta.Billing.Invoice.{
  credit_result, in_ledger, Verdict, invoice_grant, apply_mutation, grant_invoice, match_invoice,
  apply_invoice, judge_invoice, same_price, has_event, has_invoice,
}
use procure_delta.Billing.History.{Call, event, customer, price, outcome, perform, history}

-- An invoice that was applied stays applied.
abbrev pub StaysApplied : BillingDb → BillingDb → Type 0
StaysApplied db db' =
    (p : (BillingInvoiceApplication → Bool))
    → is_some (find p db.applications) ≡ true
    → is_some (find p db'.applications) ≡ true

-- The observation that an event's identifier finds stays the one that it finds.
abbrev pub StaysObserved : BillingDb → BillingDb → Type 0
StaysObserved db db' =
    (scope id : String) (o : BillingEventObservation)
    → find (has_event scope id) db.observations ≡ some o
    → find (has_event scope id) db'.observations ≡ some o

pub record Kept (db db' : BillingDb) : Type 0 where
  pub applied : StaysApplied db db'
  pub observed : StaysObserved db db'

Kept-refl : (db : BillingDb) → Kept db db
Kept-refl db = record { applied = λ _ h. h; observed = λ _ _ _ h. h }

Kept-trans : {a b c : BillingDb} → Kept a b → Kept b c → Kept a c
Kept-trans f g = record {
  applied = λ p h. g.applied p (f.applied p h);
  observed = λ scope id o h. g.observed scope id o (f.observed scope id o h);
}

-- A call that leaves the observations and adds at most an application.
abbrev Judges : BillingDb → BillingDb → Type 0
Judges db db' = StaysApplied db db' × (db'.observations ≡ db.observations)

Judges-refl : (db : BillingDb) → Judges db db
Judges-refl db = (λ _ h. h, refl)

-- A call of the credit service that returned leaves the billing tables.
credit_result_tables :
    {A : Type 0} (db : BillingDb) (r : Result CreditError A × Db) {a : A} {s : BillingDb}
    → credit_result db r ≡ (ok a, s)
    → (s.applications ≡ db.applications) × (s.observations ≡ db.observations)
credit_result_tables db (ok b, c) h = ground arith
credit_result_tables db (err e, c) h = cc

module _ (now : ℕ) (scope : String) (invoice : InvoiceFacts) (reason : Option String) where
  apply_mutation-Judges :
      (mapping : BillingCustomerMapping) (policy : BillingPricePolicy) (m : CreditMutation)
      (db s : BillingDb) {v : Verdict} {db' : BillingDb}
      → (s.applications ≡ db.applications) × (s.observations ≡ db.observations)
      → apply_mutation scope invoice reason mapping policy m s ≡ (ok v, db')
      → Judges db db'
  unfolding apply_mutation
  apply_mutation-Judges mapping policy m db s same h = (λ p old. ground arith, ground arith)

  match_invoice-Judges :
      (mapping : Option BillingCustomerMapping) (policy : Option BillingPricePolicy)
      (db : BillingDb) {v : Verdict} {db' : BillingDb}
      → match_invoice now scope invoice reason mapping policy db ≡ (ok v, db')
      → Judges db db'
  unfolding match_invoice
  match_invoice-Judges none policy db h = (λ p old. ground arith, ground arith)
  match_invoice-Judges (some mapping) none db h = (λ p old. ground arith, ground arith)
  match_invoice-Judges (some mapping) (some policy) db h =
      elim (Bool-cases (same_price policy invoice)) [
        | inr e ↦ let h' = rw e at h in (λ p old. ground arith, ground arith)
        | inl e ↦ elim (Option-cases (find (λ a. a.id == mapping.account_id) db.credit.accounts)) [
          | inl missing ↦ let h' = rw (e, missing) at h in unfold grant_invoice in cc
          | inr (account, found) ↦
              let h' = rw (e, found) at h in
              unfold grant_invoice in
              (let call = invoice_grant now invoice policy account in
                let (m, s, called, rest) =
                  bind_inv (in_ledger call) (apply_mutation scope invoice reason mapping policy) db
                    h' in
                apply_mutation-Judges mapping policy m db s
                  (credit_result_tables db (call db.credit) called) rest)
        ]
      ]

judge_invoice-Judges :
    (now : ℕ) (scope : String) (reason : Option String) (invoice : Option InvoiceFacts)
    (db : BillingDb) {v : Verdict} {db' : BillingDb}
    → judge_invoice now scope reason invoice db ≡ (ok v, db')
    → Judges db db'
unfolding judge_invoice apply_invoice
judge_invoice-Judges now scope reason none db h = (λ p old. ground arith, ground arith)
judge_invoice-Judges now scope reason (some invoice) db h =
    elim (Option-cases (find (has_invoice scope invoice.invoice_id) db.applications)) [
      | inl new ↦ match_invoice-Judges now scope invoice reason _ _ db (rw new at h)
      | inr (a, old) ↦ let h' = rw old at h in (λ p old. ground arith, ground arith)
    ]

-- A new observation, of an event that had none.
module _ (scope : String) (e : SandboxEvent) (v : Verdict) (db s : BillingDb) {r : BillingResult}
    {db' : BillingDb} (fresh : find (has_event scope e.event_id) db.observations ≡ none)
    (judged : Judges db s) (h : observe scope e v s ≡ (ok r, db')) where
  observe-applied : StaysApplied db db'
  unfolding observe
  observe-applied p old = let kept = judged.0 p old in ground arith

  observe-observed : StaysObserved db db'
  unfolding observe
  observe-observed scope' id o old =
      let same = judged.1 in ground (arith, eq_iff scope scope', eq_iff e.event_id id)

process_event-Kept :
    (now : ℕ) (scope : String) (e : SandboxEvent) (db : BillingDb) {r : BillingResult}
    {db' : BillingDb}
    → process_event now scope e db ≡ (ok r, db')
    → Kept db db'
unfolding process_event process_observed
process_event-Kept now scope e db h = elim (Bool-cases (valid_scope scope)) [
  | inr bad ↦ let h' = rw bad at h in cc
  | inl good ↦ elim (Option-cases (find (has_event scope e.event_id) db.observations)) [
    | inr (o, old) ↦
        let h' = rw (good, old) at h in
        record { applied = λ p k. ground arith; observed = λ scope' id q k. ground arith }
    | inl new ↦
        let (v, s, judged, rest) =
          bind_inv (judge_invoice now scope e.review_reason e.invoice) (observe scope e) db
            (rw (good, new) at h) in
        let j = judge_invoice-Judges now scope e.review_reason e.invoice db judged in
        record {
          applied = observe-applied scope e v db s new j rest;
          observed = observe-observed scope e v db s new j rest;
        }
  ]
]

register_customer-Kept :
    (sha256 : String → String) (now : ℕ) (scope c : String) (db : BillingDb)
    {r : BillingCustomerMapping} {db' : BillingDb}
    → register_customer sha256 now scope c db ≡ (ok r, db')
    → Kept db db'
unfolding register_customer customer_or_new
register_customer-Kept sha256 now scope c db h = record {
  applied = λ p k. ground arith;
  observed = λ scope' id q k. ground arith;
}

register_price-Kept :
    (scope p currency : String) (amount units : ℤ) (db : BillingDb) {r : BillingPricePolicy}
    {db' : BillingDb}
    → register_price scope p currency amount units db ≡ (ok r, db')
    → Kept db db'
unfolding register_price price_or_new
register_price-Kept scope p currency (pos amount) (pos units) db h = record {
  applied = λ p k. ground arith;
  observed = λ scope' id q k. ground arith;
}
register_price-Kept scope p currency (negsuc amount) units db h = record {
  applied = λ p k. ground arith;
  observed = λ scope' id q k. ground arith;
}
register_price-Kept scope p currency (pos amount) (negsuc units) db h = record {
  applied = λ p k. ground arith;
  observed = λ scope' id q k. ground arith;
}

outcome-Kept :
    {A : Type 0} (db : BillingDb) (r : Result BillingError A × BillingDb)
    → ((a : A) (s : BillingDb) → r ≡ (ok a, s) → Kept db s)
    → Kept db (outcome db r)
outcome-Kept db (ok a, s) h = h a s refl
outcome-Kept db (err e, s) h = Kept-refl db

module _ (sha256 : String → String) where
  perform-Kept : (c : Call) (db : BillingDb) → Kept db (perform sha256 c db)
  unfolding perform
  perform-Kept (event now scope e) db =
      outcome-Kept db _ (λ r s h. process_event-Kept now scope e db h)
  perform-Kept (customer now scope c) db =
      outcome-Kept db _ (λ r s h. register_customer-Kept sha256 now scope c db h)
  perform-Kept (price scope p currency amount n) db =
      outcome-Kept db _ (λ r s h. register_price-Kept scope p currency amount n db h)

  pub history-Kept : (cs : List Call) (db : BillingDb) → Kept db (history sha256 cs db)
  unfolding history
  history-Kept [] db = Kept-refl db
  history-Kept (c ∷ cs) db = Kept-trans (perform-Kept c db) (history-Kept cs _)
