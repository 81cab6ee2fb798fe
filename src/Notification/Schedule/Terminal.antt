-- ===== src/Notification/Schedule/Terminal.antt =====
-- An event that was sent, given up or cancelled in apps/api/app/workers/notifications.py.
use procure_delta.Prelude.{
  arith, ℕ, ◌≡◌, refl, ◌∙◌, true, false, some, List, [], ◌∷◌, ◌==◌, str_eq, leb, find, find-All,
  find-test, Bool-cases, Option-cases, inl, inr, ==→eq,
}
use procure_delta.Notification.Schema.{
  NotificationEvent, NotificationDb, put_event, has_event_id, is_terminal,
}
use procure_delta.Notification.Delivery.{
  DeliveryResult, Begun, answered, at_status, leased, SendOutcome, finished, finish, claimed,
  success_result, exhausted, max_attempts, begin_attempt, begin_found, begin_event, deliver_begin,
  complete_event, deliver_complete, holds_lease, is_later, is_unwanted, outcome_result,
}
use procure_delta.Notification.Outbox.{
  Notice, set_preferences, enqueue_notification, has_dedupe_key,
}
use procure_delta.Notification.Schedule.{
  Step, enqueuing, preferring, watching, beginning, completing, World, record_send, step, schedule,
}
use procure_delta.Notification.Schedule.Rows.{IsSound}
use procure_delta.Notification.Schedule.Invariant.{IsValid, step-IsValid}

put_event-find :
    (id : ℕ) (e : NotificationEvent) (xs : List NotificationEvent)
    → (e.id == id) ≡ false
    → find (has_event_id id) (put_event e xs) ≡ find (has_event_id id) xs
put_event-find id e [] h = refl
put_event-find id e (x ∷ xs) h = ground (arith, put_event-find id e xs h)

pub finished-id :
    (now jitter : ℕ) (e : NotificationEvent) (result : DeliveryResult)
    → (finished now jitter e result).id ≡ e.id
unfolding finished
finished-id now jitter e result = ground arith

-- What a step on another event leaves of an event.
abbrev Same : ℕ → NotificationDb → NotificationDb → Type 0
Same id db db' = find (has_event_id id) db'.events ≡ find (has_event_id id) db.events

module _ (id : ℕ) (e : NotificationEvent) (other : (e.id == id) ≡ false) where
  finish-Same :
      (now jitter : ℕ) (result : DeliveryResult) (db : NotificationDb)
      → Same id db (finish now jitter e result db)
  unfolding finish
  finish-Same now jitter result db =
      put_event-find id (finished now jitter e result) db.events
        (rw (finished-id now jitter e result) other)

  begin_attempt-Same : (now : ℕ) (db : NotificationDb) → Same id db (begin_attempt now e db).1
  unfolding begin_attempt finish
  begin_attempt-Same now db =
      let e' = claimed now db.next_token e in
      let once : find (has_event_id id) (put_event e' db.events)
          ≡ find (has_event_id id) db.events =
        put_event-find id e' db.events other in
      elim (Bool-cases (str_eq e.channel "local")) [
        | inl loc ↦ rw loc (
            put_event-find id (finished now 0 e' success_result) _
              (rw (finished-id now 0 e' success_result) other)
            ∙ once)
        | inr ext ↦ rw ext once
      ]

  begin_found-Same : (now : ℕ) (db : NotificationDb) → Same id db (begin_found now e db).1
  unfolding begin_found
  begin_found-Same now db = elim (Bool-cases (is_terminal e.status)) [
    | inl a ↦ rw a refl
    | inr a ↦ elim (Bool-cases (is_later e.next_attempt_at now)) [
      | inl b ↦ rw (a, b) refl
      | inr b ↦ elim (Bool-cases (is_unwanted e db)) [
        | inl c ↦ rw (a, b, c) (put_event-find id _ db.events other)
        | inr c ↦ elim (Bool-cases (leb max_attempts e.attempt_count)) [
          | inl d ↦ rw (a, b, c, d) (finish-Same now 0 exhausted db)
          | inr d ↦ rw (a, b, c, d) (begin_attempt-Same now db)
        ]
      ]
    ]
  ]

pub record_send-db :
    (k : ℕ) (sends : List ℕ) (r : Begun × NotificationDb) → (record_send k sends r).db ≡ r.1
record_send-db k sends (answered _, db) = refl
record_send-db k sends (leased _, db) = refl

-- A row of an identifier, among those that a search of another returns.
apart_id :
    (id k : ℕ) (e : NotificationEvent)
    → has_event_id k e ≡ true
    → (k == id) ≡ false
    → (e.id == id) ≡ false
apart_id id k e h other = ground arith

terminal_unleased :
    (sends : List ℕ) (next token : ℕ) (e : NotificationEvent)
    → IsSound sends next e
    → is_terminal e.status ≡ true
    → holds_lease token e.lease_token ≡ false
terminal_unleased sends next token e v h = let unheld = v.leased_while_sending in ground arith

module _ (w : World) (v : IsValid w) (id : ℕ) (e : NotificationEvent)
    (found : find (has_event_id id) w.db.events ≡ some e) (over : is_terminal e.status ≡ true) where
  begin-Same : (now k : ℕ) → Same id w.db (deliver_begin now k w.db).1
  unfolding deliver_begin begin_event
  begin-Same now k = elim (Bool-cases (k == id)) [
    | inl same ↦ rw (==→eq k id same, found) (unfold begin_found in (rw over found))
    | inr other ↦ elim (Option-cases (find (has_event_id k) w.db.events)) [
      | inl nothing ↦ rw nothing refl
      | inr (x, here) ↦ rw here (
          begin_found-Same id x
            (apart_id id k x (find-test (has_event_id k) w.db.events x here) other) now w.db)
    ]
  ]

  complete-Same :
      (now jitter k token : ℕ) (o : SendOutcome)
      → Same id w.db (deliver_complete now jitter k token o w.db).1
  unfolding deliver_complete complete_event
  complete-Same now jitter k token o = elim (Bool-cases (k == id)) [
    | inl same ↦
        rw (==→eq k id same, found)
          (rw
            (terminal_unleased w.sends w.db.next_id token e
              (find-All (IsSound w.sends w.db.next_id) (has_event_id id) w.db.events e v.events
                found)
              over)
            found)
    | inr other ↦ elim (Option-cases (find (has_event_id k) w.db.events)) [
      | inl nothing ↦ rw nothing refl
      | inr (x, here) ↦ elim (Bool-cases (holds_lease token x.lease_token)) [
        | inl held ↦
            rw (here, held)
              (finish-Same id x
                (apart_id id k x (find-test (has_event_id k) w.db.events x here) other) now jitter
                (outcome_result o) w.db)
        | inr lost ↦ rw (here, lost) refl
      ]
    ]
  ]

  enqueue-Same : (n : Notice) → Same id w.db (enqueue_notification n w.db).1
  unfolding enqueue_notification
  enqueue-Same n = elim (Option-cases (find (has_dedupe_key n.key) w.db.events)) [
    | inr (x, there) ↦ rw there refl
    | inl nothing ↦
        let sound : IsSound w.sends w.db.next_id e =
          find-All (IsSound w.sends w.db.next_id) (has_event_id id) w.db.events e v.events found in
        let same : has_event_id id e ≡ true = find-test (has_event_id id) w.db.events e found in
        let known = sound.known in
        let newer : (w.db.next_id == id) ≡ false = ground arith in rw (nothing, newer) refl
  ]

  step-Same : (s : Step) → Same id w.db (step s w).db
  unfolding step set_preferences
  step-Same (enqueuing n) = enqueue-Same n
  step-Same (preferring owner values) = refl
  step-Same (watching lists) = refl
  step-Same (beginning now k) =
      rw (record_send-db k w.sends (deliver_begin now k w.db)) (begin-Same now k)
  step-Same (completing now jitter k token o) = complete-Same now jitter k token o

-- An event that is sent, dead-lettered or cancelled in a valid state stays as it is, whatever the
-- workers do after that, and a worker that takes it answers with its status and changes nothing.
pub terminal_stays :
    (steps : List Step) (w : World)
    → IsValid w
    → (id : ℕ) (e : NotificationEvent) → find (has_event_id id) w.db.events ≡ some e
    → is_terminal e.status ≡ true
    → (find (has_event_id id) (schedule steps w).db.events ≡ some e)
      × ((now : ℕ)
          → deliver_begin now id (schedule steps w).db
            ≡ (answered (at_status e.status), (schedule steps w).db))
unfolding schedule
terminal_stays [] w v id e found over = (
  found,
  λ now.
      unfold deliver_begin in
      (unfold begin_event in (unfold begin_found in (rw (found, over) refl))),
)
terminal_stays (s ∷ steps) w v id e found over =
    terminal_stays steps (step s w) (step-IsValid s w v) id e
      (step-Same w v id e found over s ∙ found) over
