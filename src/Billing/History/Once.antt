-- ===== src/Billing/History/Once.antt =====
-- An event or an invoice that comes again to apps/api/app/billing/service.py, with any billing calls in
-- between.
use procure_delta.Prelude.{
  ℕ, ◌≡◌, String, true, false, some, List, arith, find, eq_refl, inl, inr, Bool-cases, Option-cases,
  str_eq,
}
use procure_delta.Prelude.Actions.{ok, bind_inv}
use procure_delta.Billing.Schema.{InvoiceFacts, SandboxEvent, BillingEventObservation, BillingDb}
use procure_delta.Billing.Contract.{valid_scope}
use procure_delta.Billing.Invoice.{Verdict, judge_invoice, has_invoice, has_event}
use procure_delta.Billing.Service.{
  BillingResult, observation_row, observe, process_observed, process_event,
}
use procure_delta.Billing.Service.Events.{
  CreditsNothing, process_event-Applied, process_event-CreditsNothing,
}
use procure_delta.Billing.History.{Call, history}
use procure_delta.Billing.History.Kept.{history-Kept}

abbrev pub replay_result : BillingResult → BillingResult
replay_result r = record r { credited = false; duplicate = true }

-- The observation of an event that was processed, with its answer.
record Observed (scope : String) (event : SandboxEvent) (r : BillingResult) (db : BillingDb)
    : Type 0 where
  row : BillingEventObservation
  found : find (has_event scope event.event_id) db.observations ≡ some row
  same_event : str_eq row.event_digest event.digest ≡ true
  status : row.outcome ≡ r.status
  reason : row.review_reason ≡ r.review_reason

observe-Observed :
    (scope : String) (event : SandboxEvent) (v : Verdict) (s : BillingDb) {r : BillingResult}
    {db' : BillingDb}
    → observe scope event v s ≡ (ok r, db')
    → Observed scope event r db'
unfolding observe
observe-Observed scope event v s h = record {
  row = observation_row s.credit.next_id scope event v;
  found = ground (arith, eq_refl scope, eq_refl event.event_id);
  same_event = eq_refl event.digest;
  status = ground arith;
  reason = ground arith;
}

process_event-Observed :
    (now : ℕ) (scope : String) (event : SandboxEvent) (db : BillingDb) {r : BillingResult}
    {db' : BillingDb}
    → process_event now scope event db ≡ (ok r, db')
    → (valid_scope scope ≡ true) × Observed scope event r db'
unfolding process_event process_observed
process_event-Observed now scope event db h = elim (Bool-cases (valid_scope scope)) [
  | inr e ↦ let bad = rw e at h in cc
  | inl e ↦ elim (Option-cases (find (has_event scope event.event_id) db.observations)) [
    | inr (o, old) ↦
        let known = rw (e, old) at h in
        (
          e,
          record {
            row = o;
            found = ground (arith, old);
            same_event = ground arith;
            status = ground arith;
            reason = ground arith;
          },
        )
    | inl new ↦
        let (v, s, judged, rest) =
          bind_inv (judge_invoice now scope event.review_reason event.invoice) (observe scope event)
            db (rw (e, new) at h) in
        (e, observe-Observed scope event v s rest)
  ]
]

module _ (sha256 : String → String) (cs : List Call) (now now' : ℕ) (scope : String) where
  -- An event that was processed, processed again after any other billing calls, is answered as a
  -- duplicate with the outcome and the reason of the first answer, and changes nothing.
  pub event_replay :
      (event : SandboxEvent) (db : BillingDb) {r : BillingResult} {db' : BillingDb}
      → process_event now scope event db ≡ (ok r, db')
      → process_event now' scope event (history sha256 cs db')
        ≡ (ok (replay_result r), history sha256 cs db')
  unfolding process_event process_observed
  event_replay event db {r} {db'} h =
      let (good, o) = process_event-Observed now scope event db h in
      let found = (history-Kept sha256 cs db').observed scope event.event_id o.row o.found in
      rw (good, found, o.same_event) (ground (arith, o.status, o.reason))

  -- After an event credited an invoice and any other billing calls, no event of the same scope that
  -- carries an invoice of that id credits anything: the call raises and changes nothing, or it
  -- returns as not credited and leaves the ledger entries, the accounts and the reservations as they
  -- are.
  pub invoice_once :
      (event event' : SandboxEvent) (invoice invoice' : InvoiceFacts) (db : BillingDb)
      {r : BillingResult} {db' : BillingDb}
      → event.invoice ≡ some invoice
      → process_event now scope event db ≡ (ok r, db')
      → r.credited ≡ true
      → event'.invoice ≡ some invoice'
      → invoice'.invoice_id ≡ invoice.invoice_id
      → CreditsNothing
          (history sha256 cs db')
          (process_event now' scope event' (history sha256 cs db'))
  invoice_once event event' invoice invoice' db {r} {db'} has h done has' same =
      let recorded =
        (history-Kept sha256 cs db').applied (has_invoice scope invoice.invoice_id)
          (process_event-Applied now scope event invoice db has h done) in
      process_event-CreditsNothing now' scope event' invoice' (history sha256 cs db') has'
        (rw same recorded)
