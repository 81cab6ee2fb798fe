-- ===== src/Notification/Schedule/Report.antt =====
-- The lease of a worker's attempt in apps/api/app/workers/notifications.py counts once.
use procure_delta.Prelude.{
  arith, ℕ, ◌<◌, ◌≡◌, refl, ◌∙◌, Bool, true, false, none, some, List, [], ◌∷◌, ◌==◌, ◌&&◌, str_eq,
  leb, All, All-units, find, find-All, find-test, Bool-cases, Option-cases, inl, inr, ==→eq,
}
use procure_delta.Notification.Schema.{
  Status, cancelled, NotificationEvent, NotificationDb, put_event, has_event_id, is_terminal,
}
use procure_delta.Notification.Delivery.{
  DeliveryResult, at_status, SendOutcome, finished, finish, claimed, success_result, exhausted,
  max_attempts, begin_attempt, begin_found, begin_event, deliver_begin, complete_event,
  deliver_complete, holds_lease, is_later, is_unwanted, outcome_result,
}
use procure_delta.Notification.Outbox.{
  Notice, set_preferences, event_of, enqueue_notification, has_dedupe_key,
}
use procure_delta.Notification.Schedule.{
  Step, enqueuing, preferring, watching, beginning, completing, World, step, schedule,
}
use procure_delta.Notification.Schedule.Rows.{put_event-All}
use procure_delta.Notification.Schedule.Terminal.{record_send-db, finished-id}

-- No row of the event holds the token, which was issued before.
abbrev Spent : ℕ → ℕ → NotificationEvent → Type 0
Spent id token e = ((e.id == id) && holds_lease token e.lease_token) ≡ false

abbrev IsSpent : ℕ → ℕ → NotificationDb → Type 0
IsSpent id token db = All (Spent id token) db.events × (token < db.next_token)

finished-lease :
    (now jitter : ℕ) (e : NotificationEvent) (result : DeliveryResult)
    → (finished now jitter e result).lease_token ≡ none
unfolding finished
finished-lease now jitter e result = ground arith

no_lease : (id token : ℕ) (e : NotificationEvent) → e.lease_token ≡ none → Spent id token e
no_lease id token e h = ground arith

module _ (id token : ℕ) where
  put_event-Spent :
      (e : NotificationEvent) (xs : List NotificationEvent)
      → Spent id token e
      → All (Spent id token) xs
      → All (Spent id token) (put_event e xs)
  put_event-Spent e xs this h =
      put_event-All (Spent id token) (Spent id token) e this (λ x p _. p) xs h

  finish-IsSpent :
      (now jitter : ℕ) (e : NotificationEvent) (result : DeliveryResult) (db : NotificationDb)
      → IsSpent id token db
      → IsSpent id token (finish now jitter e result db)
  unfolding finish
  finish-IsSpent now jitter e result db h = (
    put_event-Spent (finished now jitter e result) db.events
        (no_lease id token (finished now jitter e result) (finished-lease now jitter e result)) h.0,
    h.1,
  )

  begin_attempt-IsSpent :
      (now : ℕ) (e : NotificationEvent) (db : NotificationDb)
      → IsSpent id token db
      → IsSpent id token (begin_attempt now e db).1
  unfolding begin_attempt
  begin_attempt-IsSpent now e db h =
      let e' = claimed now db.next_token e in
      let issued = h.1 in
      let other : holds_lease token e'.lease_token ≡ false = ground arith in
      let rows = put_event-Spent e' db.events (ground (arith, other)) h.0 in
      elim (Bool-cases (str_eq e.channel "local")) [
        | inl loc ↦ rw loc (finish-IsSpent now 0 e' success_result _ (rows, omega arith))
        | inr ext ↦ rw ext (rows, omega arith)
      ]

  cancelled-Spent :
      (e : NotificationEvent) (db : NotificationDb)
      → IsSpent id token db
      → All (Spent id token) (
          put_event
            (record e { status = cancelled; next_attempt_at = none; lease_token = none })
            db.events)
  cancelled-Spent e db h =
      let e' = record e { status = cancelled; next_attempt_at = none; lease_token = none } in
      put_event-Spent e' db.events (no_lease id token e' refl) h.0

  begin_found-IsSpent :
      (now : ℕ) (e : NotificationEvent) (db : NotificationDb)
      → IsSpent id token db
      → IsSpent id token (begin_found now e db).1
  unfolding begin_found
  begin_found-IsSpent now e db h = elim (Bool-cases (is_terminal e.status)) [
    | inl a ↦ rw a h
    | inr a ↦ elim (Bool-cases (is_later e.next_attempt_at now)) [
      | inl b ↦ rw (a, b) h
      | inr b ↦ elim (Bool-cases (is_unwanted e db)) [
        | inl c ↦ rw (a, b, c) (cancelled-Spent e db h, h.1)
        | inr c ↦ elim (Bool-cases (leb max_attempts e.attempt_count)) [
          | inl d ↦ rw (a, b, c, d) (finish-IsSpent now 0 e exhausted db h)
          | inr d ↦ rw (a, b, c, d) (begin_attempt-IsSpent now e db h)
        ]
      ]
    ]
  ]

  begin-IsSpent :
      (now k : ℕ) (db : NotificationDb)
      → IsSpent id token db
      → IsSpent id token (deliver_begin now k db).1
  unfolding deliver_begin begin_event
  begin-IsSpent now k db h = elim (Option-cases (find (has_event_id k) db.events)) [
    | inl nothing ↦ rw nothing h
    | inr (e, found) ↦ rw found (begin_found-IsSpent now e db h)
  ]

  complete-IsSpent :
      (now jitter k t : ℕ) (o : SendOutcome) (db : NotificationDb)
      → IsSpent id token db
      → IsSpent id token (deliver_complete now jitter k t o db).1
  unfolding deliver_complete complete_event
  complete-IsSpent now jitter k t o db h = elim (Option-cases (find (has_event_id k) db.events)) [
    | inl nothing ↦ rw nothing h
    | inr (e, found) ↦ elim (Bool-cases (holds_lease t e.lease_token)) [
      | inl held ↦ rw (found, held) (finish-IsSpent now jitter e (outcome_result o) db h)
      | inr lost ↦ rw (found, lost) h
    ]
  ]

  enqueue-IsSpent :
      (n : Notice) (db : NotificationDb)
      → IsSpent id token db
      → IsSpent id token (enqueue_notification n db).1
  unfolding enqueue_notification
  enqueue-IsSpent n db h = elim (Option-cases (find (has_dedupe_key n.key) db.events)) [
    | inr (x, there) ↦ rw there h
    | inl nothing ↦ rw nothing ((no_lease id token (event_of db.next_id n) refl, h.0), h.1)
  ]

  step-IsSpent : (s : Step) (w : World) → IsSpent id token w.db → IsSpent id token (step s w).db
  unfolding step set_preferences
  step-IsSpent (enqueuing n) w h = enqueue-IsSpent n w.db h
  step-IsSpent (preferring owner values) w h = h
  step-IsSpent (watching lists) w h = h
  step-IsSpent (beginning now k) w h =
      rw (record_send-db k w.sends (deliver_begin now k w.db)) (begin-IsSpent now k w.db h)
  step-IsSpent (completing now jitter k t o) w h = complete-IsSpent now jitter k t o w.db h

  schedule-IsSpent :
      (steps : List Step) (w : World)
      → IsSpent id token w.db
      → IsSpent id token (schedule steps w).db
  unfolding schedule
  schedule-IsSpent [] w h = h
  schedule-IsSpent (s ∷ steps) w h = schedule-IsSpent steps (step s w) (step-IsSpent s w h)

  spent_report :
      (now jitter : ℕ) (o : SendOutcome) (db : NotificationDb)
      → IsSpent id token db
      → (deliver_complete now jitter id token o db).1 ≡ db
  unfolding deliver_complete complete_event
  spent_report now jitter o db h = elim (Option-cases (find (has_event_id id) db.events)) [
    | inl nothing ↦ rw nothing refl
    | inr (e, found) ↦
        let spent : Spent id token e =
          find-All (Spent id token) (has_event_id id) db.events e h.0 found in
        let same : has_event_id id e ≡ true = find-test (has_event_id id) db.events e found in
        let lost : holds_lease token e.lease_token ≡ false = ground arith in rw (found, lost) refl
  ]

  other_row : (k j : ℕ) (b : Bool) → (k == j) ≡ false → j ≡ id → ((k == id) && b) ≡ false
  other_row k j b h same = ground arith

  -- Where a report is accepted, the event's rows are written without a lease.
  accepted-IsSpent :
      (now jitter : ℕ) (o : SendOutcome) (db : NotificationDb) (s : Status)
      → token < db.next_token
      → (deliver_complete now jitter id token o db).0 ≡ some (at_status s)
      → IsSpent id token (deliver_complete now jitter id token o db).1
  unfolding deliver_complete complete_event finish
  accepted-IsSpent now jitter o db s issued h =
      elim (Option-cases (find (has_event_id id) db.events)) [
        | inl nothing ↦ let bad = rw nothing at h in cc
        | inr (e, found) ↦ elim (Bool-cases (holds_lease token e.lease_token)) [
          | inl held ↦
              let e' = finished now jitter e (outcome_result o) in
              let own : e.id ≡ id = ==→eq e.id id (find-test (has_event_id id) db.events e found) in
              rw (found, held)
                (
                  put_event-All (λ _. Unit {0}) (Spent id token) e'
                      (no_lease id token e' (finished-lease now jitter e (outcome_result o)))
                      (λ x _ other.
                        other_row x.id e'.id (holds_lease token x.lease_token) other
                          (finished-id now jitter e (outcome_result o) ∙ own))
                      db.events (All-units db.events),
                  issued,
                )
          | inr lost ↦ let bad = rw (found, lost) at h in cc
        ]
      ]

-- Once a worker's report on an event is accepted, another report with the same token changes nothing,
-- whatever the workers do between the two.
pub report_once :
    (steps : List Step) (w : World) (id token now jitter : ℕ) (o : SendOutcome) (s : Status)
    → token < w.db.next_token
    → (deliver_complete now jitter id token o w.db).0 ≡ some (at_status s)
    → (now' jitter' : ℕ) (o' : SendOutcome)
    → let after =
        schedule steps (record w { db = (deliver_complete now jitter id token o w.db).1 }) in
      (deliver_complete now' jitter' id token o' after.db).1 ≡ after.db
report_once steps w id token now jitter o s issued accepted now' jitter' o' =
    let after = record w { db = (deliver_complete now jitter id token o w.db).1 } in
    spent_report id token now' jitter' o' (schedule steps after).db (
      schedule-IsSpent id token steps after
        (accepted-IsSpent id token now jitter o w.db s issued accepted))
