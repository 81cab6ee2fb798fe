-- ===== src/Billing/Contract/Accepted.antt =====
-- The events that `parse_event` of apps/api/app/billing/contract.py accepts.
use mathlib.Core.Path.{subst}
use procure_delta.Prelude.{
  arith, ℕ, ◌≡◌, ◌≤◌, refl, inl, inr, String, true, Option, none, some, List, leb, length, str_eq,
  Bool-cases,
}
use procure_delta.Prelude.Int.{pos}
use procure_delta.Prelude.Json.{
  Json, null, bool, integer, real, text, array, object, JsonFields, get, is_false,
}
use procure_delta.Billing.Schema.{InvoiceFacts, SandboxEvent}
use procure_delta.Billing.Contract.Parsing.{
  Checked, accepted, reviewed, rejected, invoice_of, max_timestamp, ◌>>=◌, reject_if,
}
use procure_delta.Billing.Contract.{codes}
use procure_delta.Billing.Contract.Event.{
  Reading, max_body_bytes, unique_object, invoice_reading, is_subscription_event, event_reading,
  read_event, loaded, parse_event, require_event_type, event_type_pattern,
}
use procure_delta.Billing.Contract.Steps.{
  bind_accepted, reject_accepted, not-false, or_false, or3_false, text_is_lem, require_natural_lem,
  require_id_lem, require_object_lem,
}
use procure_delta.Billing.Contract.Paid.{accepted_same, Established, invoice_of-IsPaid}

module _ (str : ℕ → String) (facts_digest : InvoiceFacts → String) where
  -- Facts are those of an invoice that is paid, and come without a reason for a review.
  abbrev pub Sound : String → JsonFields → Reading → Type 0
  Sound id obj (none, why) = Unit
  Sound id obj (some f, none) = Established str facts_digest id obj f
  Sound id obj (some f, some why) = ⊥

  invoice_reading-Sound :
      (id : String) (obj : JsonFields) (m : Checked InvoiceFacts) (r : Reading)
      → ((f : InvoiceFacts) → m ≡ accepted f → Established str facts_digest id obj f)
      → invoice_reading m ≡ accepted r
      → Sound id obj r
  invoice_reading-Sound id obj (accepted f) (some g, none) h e =
      h g (let same : f ≡ g = cc in rw same refl)
  invoice_reading-Sound id obj (accepted f) (none, why) h e = tt
  invoice_reading-Sound id obj (accepted f) (some g, some why) h e = cc
  invoice_reading-Sound id obj (reviewed why) (none, _) h e = tt
  invoice_reading-Sound id obj (reviewed why) (some g, none) h e = cc
  invoice_reading-Sound id obj (reviewed why) (some g, some why') h e = cc
  invoice_reading-Sound id obj rejected r h e = cc

  none-Sound : (id : String) (obj : JsonFields) (r : Reading) → r.0 ≡ none → Sound id obj r
  none-Sound id obj (none, why) e = tt
  none-Sound id obj (some f, why) e = cc

  event_reading-Sound :
      (kind id : String) (obj : JsonFields) (r : Reading)
      → event_reading str facts_digest kind id obj ≡ accepted r
      → Sound id obj r
  unfolding event_reading
  event_reading-Sound kind id obj r e = elim (Bool-cases (str_eq kind "invoice.paid")) [
    | inl paid ↦
        let (_, e1) = reject_accepted _ _ (rw paid at e) in
        invoice_reading-Sound id obj (invoice_of str facts_digest id obj) r
          (invoice_of-IsPaid str facts_digest id obj) e1
    | inr a ↦ elim (Bool-cases (str_eq kind "invoice.payment_failed")) [
      | inl failed ↦
          let (_, e1) = reject_accepted _ _ (rw (a, failed) at e) in
          let (_, _, e2) = bind_accepted _ _ e1 in
          none-Sound id obj r (rw (← accepted_same e2) refl)
      | inr b ↦ elim (Bool-cases (is_subscription_event kind)) [
        | inl subscription ↦
            let (_, e1) = reject_accepted _ _ (rw (a, b, subscription) at e) in
            let (_, _, e2) = bind_accepted _ _ e1 in
            let (_, e3) = reject_accepted _ _ e2 in
            none-Sound id obj r (rw (← accepted_same e3) refl)
        | inr other ↦ none-Sound id obj r (rw (← accepted_same (rw (a, b, other) at e)) refl)
      ]
    ]
  ]

  -- What an accepted event says of the JSON value that it was read from.
  pub record SoundEvent (digest : Json → String) (value : Json) (e : SandboxEvent) : Type 0 where
    pub raw : JsonFields
    pub whole : value ≡ object raw
    pub version : get "api_version" raw ≡ text "2025-03-31.basil"
    pub test_event : is_false (get "livemode" raw) ≡ true
    pub event_id : get "id" raw ≡ text e.event_id
    pub event_type : get "type" raw ≡ text e.event_type
    pub created : get "created" raw ≡ integer (pos e.created)
    pub content : JsonFields
    pub body_data : get "data" raw ≡ object content
    pub obj : JsonFields
    pub carried : get "object" content ≡ object obj
    pub object_id : get "id" obj ≡ text e.object_id
    pub test_object : is_false (get "livemode" obj) ≡ true
    pub same_digest : e.digest ≡ digest value
    pub sound : Sound e.object_id obj (e.invoice, e.review_reason)

  require_event_type_lem : (j : Json) {s : String} → require_event_type j ≡ accepted s → j ≡ text s
  unfolding ◌>>=◌ reject_if
  require_event_type_lem (text k) e = elim (Bool-cases (event_type_pattern (codes k))) [
    | inl good ↦ let e' = rw good at e in cc
    | inr bad ↦ let e' = rw bad at e in cc
  ]
  require_event_type_lem null e = cc
  require_event_type_lem (bool _) e = cc
  require_event_type_lem (integer _) e = cc
  require_event_type_lem (real _ _) e = cc
  require_event_type_lem (array _) e = cc
  require_event_type_lem (object _) e = cc

  read_event-Sound :
      (digest : Json → String) (value : Json) (event : SandboxEvent)
      → read_event str facts_digest digest value ≡ accepted event
      → SoundEvent digest value event
  unfolding read_event
  read_event-Sound digest value event e =
      let (raw, whole, e1) = bind_accepted _ _ e in
      let (envelope, e2) = reject_accepted _ _ e1 in
      let (event_id, h3, e3) = bind_accepted _ _ e2 in
      let (kind, h4, e4) = bind_accepted _ _ e3 in
      let (created, h5, e5) = bind_accepted _ _ e4 in
      let (content, h6, e6) = bind_accepted _ _ e5 in
      let (obj, h7, e7) = bind_accepted _ _ e6 in
      let (id, h8, e8) = bind_accepted _ _ e7 in
      let (test, e9) = reject_accepted _ _ e8 in
      let (customer, _, e10) = bind_accepted _ _ e9 in
      let (reading, h, e11) = bind_accepted _ _ e10 in
      let (before_context, _) = or_false _ _ envelope in
      let (before_account, _) = or_false _ _ before_context in
      let (_, version, live) = or3_false _ _ _ before_account in
      subst (SoundEvent digest value) (accepted_same e11) (record {
        raw = raw;
        whole = require_object_lem value raw whole;
        version = text_is_lem "2025-03-31.basil" (get "api_version" raw) (not-false _ version);
        test_event = not-false _ live;
        event_id = require_id_lem "evt_" (get "id" raw) h3;
        event_type = require_event_type_lem (get "type" raw) h4;
        created = (require_natural_lem 0 max_timestamp (get "created" raw) h5).0;
        content = content;
        body_data = require_object_lem (get "data" raw) content h6;
        obj = obj;
        carried = require_object_lem (get "object" content) obj h7;
        object_id = require_id_lem "" (get "id" obj) h8;
        test_object = not-false _ test;
        same_digest = refl;
        sound = event_reading-Sound kind id obj reading h;
      })

  loaded-Sound :
      (digest : Json → String) (value : Option Json) (event : SandboxEvent)
      → loaded str facts_digest digest value ≡ accepted event
      → (j : Json) × (value ≡ some j) × SoundEvent digest j event
  loaded-Sound digest none event e = cc
  loaded-Sound digest (some value) event e = (value, refl, read_event-Sound digest value event e)

  pub parse_event-Sound :
      (loads : (List (String × Json) → Option JsonFields) → List ℕ → Option Json)
      (digest : Json → String) (body : List ℕ) (event : SandboxEvent)
      → parse_event str facts_digest loads digest body ≡ accepted event
      → (length body ≤ max_body_bytes)
        × ((value : Json) × (loads unique_object body ≡ some value) × SoundEvent digest value event)
  unfolding parse_event
  parse_event-Sound loads digest body event e =
      elim (Bool-cases (leb (length body) max_body_bytes)) [
        | inl fits ↦
            (ground arith, loaded-Sound digest (loads unique_object body) event (rw fits at e))
        | inr long ↦ let bad = rw long at e in cc
      ]
