-- ===== src/Notification/Schedule/Invariant.antt =====
-- The events of the outbox under any schedule of apps/api/app/workers/notifications.py.
use mathlib.Core.Path.{subst}
use procure_delta.Prelude.{
  arith, ℕ, suc, ◌≤◌, ◌<◌, ◌≡◌, refl, ◌∙◌, ==→eq, true, false, none, List, [], ◌∷◌, ◌==◌, str_eq,
  leb, All, All-imp, find, find-All, find-test, Bool-cases, Option-cases, inl, inr,
}
use procure_delta.Notification.Schema.{
  Status, cancelled, NotificationEvent, NotificationDb, put_event, has_event_id, is_terminal,
}
use procure_delta.Notification.Delivery.{
  DeliveryResult, Begun, SendOutcome, finish, local_send, claimed, success_result, exhausted,
  max_attempts, begin_attempt, begin_found, begin_event, deliver_begin, complete_event,
  deliver_complete, holds_lease, is_later, is_unwanted, outcome_result,
}
use procure_delta.Notification.Outbox.{
  Notice, set_preferences, enqueue_notification, has_dedupe_key,
}
use procure_delta.Notification.Schedule.{
  Step, enqueuing, preferring, watching, beginning, completing, World, record_send, step, schedule,
}
use procure_delta.Notification.Schedule.Rows.{
  count, is_sent, IsSound, put_event-All, finish-events, claimed-IsSound, claimed-events,
}

pub record IsValid (w : World) : Type 0 where
  pub events : All (IsSound w.sends w.db.next_id) w.db.events
  pub fresh : (k : ℕ) → w.db.next_id ≤ k → count k w.sends ≡ 0

abbrev world : NotificationDb → List ℕ → World
world db sends = record { db = db; sends = sends }

not_sent : (s : Status) → is_terminal s ≡ false → is_sent s ≡ false
not_sent s h = ground arith

count_other : (k id : ℕ) (sends : List ℕ) → (k == id) ≡ false → count k (id ∷ sends) ≡ count k sends
count_other k id sends h = ground arith

count_self : (id : ℕ) (sends : List ℕ) → count id (id ∷ sends) ≤ suc (count id sends)
count_self id sends = ground arith

local_send-IsValid :
    (e : NotificationEvent) (db : NotificationDb) (sends : List ℕ)
    → IsValid (world db sends)
    → IsValid (world (local_send e db) sends)
local_send-IsValid e db sends v = record { events = v.events; fresh = v.fresh }

finish-IsValid :
    (now jitter : ℕ) (e : NotificationEvent) (result : DeliveryResult) (db : NotificationDb)
    (sends : List ℕ)
    → IsSound sends db.next_id e
    → is_sent e.status ≡ false
    → IsValid (world db sends)
    → IsValid (world (finish now jitter e result db) sends)
unfolding finish
finish-IsValid now jitter e result db sends sound unsent v = record {
  events = finish-events sends db.next_id now jitter e result db sound unsent v.events;
  fresh = v.fresh;
}

-- What a step keeps: the state and the sends that it leaves are valid.
abbrev IsKept : ℕ → List ℕ → Begun × NotificationDb → Type 0
IsKept id sends r = IsValid (record_send id sends r)

module _ (sends : List ℕ) (db : NotificationDb)
    (v : IsValid (record { db = db; sends = sends })) where
  attempt_world :
      (now : ℕ) (e : NotificationEvent) (sends' : List ℕ)
      → IsSound sends' db.next_id (claimed now db.next_token e)
      → ((k : ℕ) → (k == e.id) ≡ false → count k sends' ≡ count k sends)
      → e.id < db.next_id
      → IsValid (
          world
            (record db {
              events = put_event (claimed now db.next_token e) db.events;
              next_token = suc db.next_token;
            })
            sends')
  attempt_world now e sends' sound same known = record {
    events =
        claimed-events sends db.next_id now db.next_token e sends' db.events sound same v.events;
    fresh = λ k le. same k (ground arith) ∙ v.fresh k le;
  }

  begin_attempt-IsValid :
      (now : ℕ) (e : NotificationEvent)
      → IsSound sends db.next_id e
      → leb max_attempts e.attempt_count ≡ false
      → is_sent e.status ≡ false
      → IsKept e.id sends (begin_attempt now e db)
  unfolding begin_attempt
  begin_attempt-IsValid now e sound few unsent = elim (Bool-cases (str_eq e.channel "local")) [
    | inl loc ↦
        let e' = claimed now db.next_token e in
        let sound' =
          claimed-IsSound sends db.next_id now db.next_token e sends sound (omega arith) few
            unsent in
        rw loc (
          finish-IsValid now 0 e' success_result _ sends sound' refl (
            local_send-IsValid e' _ sends
              (attempt_world now e sends sound' (λ k _. refl) sound.known)))
    | inr ext ↦ rw ext (
        attempt_world now e (e.id ∷ sends)
          (claimed-IsSound sends db.next_id now db.next_token e (e.id ∷ sends) sound
            (count_self e.id sends) few unsent)
          (λ k other. count_other k e.id sends other) sound.known)
  ]

  cancel-IsValid :
      (e : NotificationEvent)
      → IsSound sends db.next_id e
      → is_sent e.status ≡ false
      → IsValid (
          world
            (record db {
              events =
                  put_event
                    (record e { status = cancelled; next_attempt_at = none; lease_token = none })
                    db.events;
            })
            sends)
  cancel-IsValid e sound unsent = record {
    events =
        put_event-All (IsSound sends db.next_id) (IsSound sends db.next_id) _
          (record {
            counted = sound.counted;
            limited = sound.limited;
            known = sound.known;
            leased_while_sending = refl;
            dated_when_sent = sound.dated_when_sent ∙ unsent;
          })
          (λ x p _. p) db.events v.events;
    fresh = v.fresh;
  }

  begin_found-IsValid :
      (now : ℕ) (e : NotificationEvent)
      → IsSound sends db.next_id e
      → IsKept e.id sends (begin_found now e db)
  unfolding begin_found
  begin_found-IsValid now e sound = elim (Bool-cases (is_terminal e.status)) [
    | inl a ↦ rw a v
    | inr open_status ↦ elim (Bool-cases (is_later e.next_attempt_at now)) [
      | inl b ↦ rw (open_status, b) v
      | inr due ↦ elim (Bool-cases (is_unwanted e db)) [
        | inl c ↦ rw (open_status, due, c) (cancel-IsValid e sound (not_sent e.status open_status))
        | inr wanted ↦ elim (Bool-cases (leb max_attempts e.attempt_count)) [
          | inl d ↦
              rw (open_status, due, wanted, d)
                (finish-IsValid now 0 e exhausted db sends sound (not_sent e.status open_status) v)
          | inr few ↦
              rw (open_status, due, wanted, few)
                (begin_attempt-IsValid now e sound few (not_sent e.status open_status))
        ]
      ]
    ]
  ]

  begin-IsValid : (now id : ℕ) → IsKept id sends (deliver_begin now id db)
  unfolding deliver_begin begin_event
  begin-IsValid now id = elim (Option-cases (find (has_event_id id) db.events)) [
    | inl nothing ↦ rw nothing v
    | inr (e, found) ↦
        let same : e.id ≡ id = ==→eq e.id id (find-test (has_event_id id) db.events e found) in
        let sound : IsSound sends db.next_id e =
          find-All (IsSound sends db.next_id) (has_event_id id) db.events e v.events found in
        rw found (
          subst (λ k. IsKept k sends (begin_found now e db)) same (begin_found-IsValid now e sound))
  ]

  leased_unsent :
      (token : ℕ) (e : NotificationEvent)
      → IsSound sends db.next_id e
      → holds_lease token e.lease_token ≡ true
      → is_sent e.status ≡ false
  leased_unsent token e sound h = let held = sound.leased_while_sending in ground arith

  complete-IsValid :
      (now jitter id token : ℕ) (o : SendOutcome)
      → IsValid (world (deliver_complete now jitter id token o db).1 sends)
  unfolding deliver_complete complete_event
  complete-IsValid now jitter id token o = elim (Option-cases (find (has_event_id id) db.events)) [
    | inl nothing ↦ rw nothing v
    | inr (e, found) ↦
        let sound : IsSound sends db.next_id e =
          find-All (IsSound sends db.next_id) (has_event_id id) db.events e v.events found in
        elim (Bool-cases (holds_lease token e.lease_token)) [
          | inl held ↦
              rw (found, held)
                (finish-IsValid now jitter e (outcome_result o) db sends sound
                  (leased_unsent token e sound held) v)
          | inr lost ↦ rw (found, lost) v
        ]
  ]

enqueue-IsValid :
    (n : Notice) (w : World)
    → IsValid w
    → IsValid (record w { db = (enqueue_notification n w.db).1 })
unfolding enqueue_notification
enqueue-IsValid n w v = elim (Option-cases (find (has_dedupe_key n.key) w.db.events)) [
  | inr (e, found) ↦ rw found v
  | inl nothing ↦ rw nothing (record {
    events = (
      record {
        counted = ground (arith, v.fresh w.db.next_id (omega arith));
        limited = omega arith;
        known = omega arith;
        leased_while_sending = refl;
        dated_when_sent = refl;
      },
      All-imp (IsSound w.sends w.db.next_id) (IsSound w.sends (suc w.db.next_id))
          (λ x p. record {
            counted = p.counted;
            limited = p.limited;
            known = ground (arith, p.known);
            leased_while_sending = p.leased_while_sending;
            dated_when_sent = p.dated_when_sent;
          })
          w.db.events v.events,
    );
    fresh = λ k le. v.fresh k (omega arith);
  })
]

pub step-IsValid : (s : Step) (w : World) → IsValid w → IsValid (step s w)
unfolding step set_preferences
step-IsValid (enqueuing n) w v = enqueue-IsValid n w v
step-IsValid (preferring owner values) w v = record { events = v.events; fresh = v.fresh }
step-IsValid (watching lists) w v = record { events = v.events; fresh = v.fresh }
step-IsValid (beginning now id) w v = begin-IsValid w.sends w.db v now id
step-IsValid (completing now jitter id token o) w v =
    complete-IsValid w.sends w.db v now jitter id token o

-- Whatever the workers do from a valid state, each event stays within three attempts and is handed to
-- an external channel at most once for each of them; it holds a lease exactly while it is being sent,
-- and has a time of delivery exactly when it was sent.
pub schedule-IsValid : (steps : List Step) (w : World) → IsValid w → IsValid (schedule steps w)
unfolding schedule
schedule-IsValid [] w v = v
schedule-IsValid (s ∷ steps) w v = schedule-IsValid steps (step s w) (step-IsValid s w v)
