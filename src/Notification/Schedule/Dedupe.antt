-- ===== src/Notification/Schedule/Dedupe.antt =====
-- The unique key of apps/api/app/notifications/service.py, under any schedule of the workers.
use procure_delta.Prelude.{
  arith, ℕ, suc, ◌≤◌, ◌<◌, ◌≡◌, refl, ◌∙◌, String, Option, none, some, List, [], ◌∷◌, ◌==◌, str_eq,
  leb, if◌then◌else◌, find, find-test, Bool-cases, Option-cases, inl, inr, eq_refl, eq_iff, ==_refl,
}
use procure_delta.Notification.Schema.{
  NotificationEvent, NotificationDb, put_event, has_event_id, is_terminal,
}
use procure_delta.Notification.Delivery.{
  DeliveryResult, SendOutcome, finished, finish, claimed, success_result, exhausted, max_attempts,
  begin_attempt, begin_found, begin_event, deliver_begin, complete_event, deliver_complete,
  holds_lease, is_later, is_unwanted, outcome_result, local_send,
}
use procure_delta.Notification.Outbox.{
  Notice, set_preferences, enqueue_notification, has_dedupe_key,
}
use procure_delta.Notification.Schedule.{
  Step, enqueuing, preferring, watching, beginning, completing, World, step, schedule,
}
use procure_delta.Notification.Schedule.Terminal.{finished-id, record_send-db}

-- The primary key and the unique key of each event.
unfoldable pub names : List NotificationEvent → List (ℕ × String)
names [] = []
names (e ∷ es) = (e.id, e.dedupe_key) ∷ names es

-- The primary keys fall from the newest row to the oldest, all below the counter.
abbrev pub Falling : ℕ → List (ℕ × String) → Type 0
Falling n [] = Unit
Falling n (x ∷ xs) = (x.0 < n) × Falling x.0 xs

-- Each event of the outbox has a primary key of its own.
abbrev pub IsKeyed : NotificationDb → Type 0
IsKeyed db = Falling db.next_id (names db.events)

-- The unique key of a primary key, and the primary key of a unique key.
key_at : ℕ → List (ℕ × String) → Option String
key_at id [] = none
key_at id (x ∷ xs) = if x.0 == id then some x.1 else key_at id xs

id_of : String → List (ℕ × String) → Option ℕ
id_of key [] = none
id_of key (x ∷ xs) = if str_eq x.1 key then some x.0 else id_of key xs

find-key_at :
    (id : ℕ) (e : NotificationEvent) (xs : List NotificationEvent)
    → find (has_event_id id) xs ≡ some e
    → key_at e.id (names xs) ≡ some e.dedupe_key
unfolding names key_at
find-key_at id e [] h = cc
find-key_at id e (x ∷ xs) h =
    ground (arith, ==_refl e.id, find-test (has_event_id id) (x ∷ xs) e h, find-key_at id e xs)

names-put_above :
    (n : ℕ) (e : NotificationEvent) (xs : List NotificationEvent)
    → Falling n (names xs)
    → n ≤ e.id
    → names (put_event e xs) ≡ names xs
unfolding names
names-put_above n e [] d h = refl
names-put_above n e (x ∷ xs) d h = ground (arith, names-put_above x.id e xs)

find-id_of :
    (key : String) (e : NotificationEvent) (xs : List NotificationEvent)
    → find (has_dedupe_key key) xs ≡ some e
    → id_of key (names xs) ≡ some e.id
unfolding names id_of
find-id_of key e [] h = cc
find-id_of key e (x ∷ xs) h = ground (arith, find-id_of key e xs)

-- A unique key that stands for an event finds it.
id_of-find :
    (key : String) (id : ℕ) (xs : List NotificationEvent)
    → id_of key (names xs) ≡ some id
    → (e : NotificationEvent) × (find (has_dedupe_key key) xs ≡ some e) × (e.id ≡ id)
unfolding names id_of
id_of-find key id [] h = cc
id_of-find key id (x ∷ xs) h = elim (Bool-cases (has_dedupe_key key x)) [
  | inl e ↦ (x, rw e refl, (let p = rw e at h in cc))
  | inr e ↦ let (y, f, same) = id_of-find key id xs (rw e at h) in (y, rw e f, same)
]

-- An update of an event under its own keys changes no key.
names-put_event :
    (n : ℕ) (e : NotificationEvent) (xs : List NotificationEvent)
    → Falling n (names xs)
    → key_at e.id (names xs) ≡ some e.dedupe_key
    → names (put_event e xs) ≡ names xs
unfolding names key_at
names-put_event n e [] d h = refl
names-put_event n e (x ∷ xs) d h =
    ground (arith, names-put_above x.id e xs, names-put_event x.id e xs)

finished-dedupe_key :
    (now jitter : ℕ) (e : NotificationEvent) (result : DeliveryResult)
    → (finished now jitter e result).dedupe_key ≡ e.dedupe_key
unfolding finished
finished-dedupe_key now jitter e result = ground arith

-- Neither the keys nor the counter change.
abbrev Named : NotificationDb → NotificationDb → Type 0
Named db db' = (names db'.events ≡ names db.events) × (db'.next_id ≡ db.next_id)

finish-Named :
    (now jitter : ℕ) (e : NotificationEvent) (result : DeliveryResult) (db : NotificationDb)
    → IsKeyed db
    → key_at e.id (names db.events) ≡ some e.dedupe_key
    → Named db (finish now jitter e result db)
unfolding finish
finish-Named now jitter e result db d h =
    let e' = finished now jitter e result in
    let listed : key_at e'.id (names db.events) ≡ some e'.dedupe_key =
      rw (finished-id now jitter e result, finished-dedupe_key now jitter e result) h in
    (names-put_event db.next_id e' db.events d listed, refl)

module _ (now : ℕ) (e : NotificationEvent) (db : NotificationDb) (d : IsKeyed db)
    (h : key_at e.id (names db.events) ≡ some e.dedupe_key) where
  begin_attempt-Named : Named db (begin_attempt now e db).1
  unfolding begin_attempt
  begin_attempt-Named =
      let e' = claimed now db.next_token e in
      let once = names-put_event db.next_id e' db.events d h in
      elim (Bool-cases (str_eq e.channel "local")) [
        | inl loc ↦
            let db' =
              local_send e'
                (record db { events = put_event e' db.events; next_token = suc db.next_token }) in
            let f = finish-Named now 0 e' success_result db' (rw once d) (rw once h) in
            rw loc (f.0 ∙ once, f.1)
        | inr ext ↦ rw ext (once, refl)
      ]

  begin_found-Named : Named db (begin_found now e db).1
  unfolding begin_found
  begin_found-Named = elim (Bool-cases (is_terminal e.status)) [
    | inl a ↦ rw a (refl, refl)
    | inr a ↦ elim (Bool-cases (is_later e.next_attempt_at now)) [
      | inl b ↦ rw (a, b) (refl, refl)
      | inr b ↦ elim (Bool-cases (is_unwanted e db)) [
        | inl c ↦ rw (a, b, c) (names-put_event db.next_id _ db.events d h, refl)
        | inr c ↦ elim (Bool-cases (leb max_attempts e.attempt_count)) [
          | inl f ↦ rw (a, b, c, f) (finish-Named now 0 e exhausted db d h)
          | inr f ↦ rw (a, b, c, f) begin_attempt-Named
        ]
      ]
    ]
  ]

begin-Named : (now id : ℕ) (db : NotificationDb) → IsKeyed db → Named db (deliver_begin now id db).1
unfolding deliver_begin begin_event
begin-Named now id db d = elim (Option-cases (find (has_event_id id) db.events)) [
  | inl nothing ↦ rw nothing (refl, refl)
  | inr (e, here) ↦ rw here (begin_found-Named now e db d (find-key_at id e db.events here))
]

complete-Named :
    (now jitter id token : ℕ) (o : SendOutcome) (db : NotificationDb)
    → IsKeyed db
    → Named db (deliver_complete now jitter id token o db).1
unfolding deliver_complete complete_event
complete-Named now jitter id token o db d = elim (Option-cases (find (has_event_id id) db.events)) [
  | inl nothing ↦ rw nothing (refl, refl)
  | inr (e, here) ↦ elim (Bool-cases (holds_lease token e.lease_token)) [
    | inl held ↦
        rw (here, held)
          (finish-Named now jitter e (outcome_result o) db d (find-key_at id e db.events here))
    | inr lost ↦ rw (here, lost) (refl, refl)
  ]
]

-- The keys stay apart, and a unique key that stands for an event stands for it ever after.
record Stays (db db' : NotificationDb) : Type 0 where
  keyed : IsKeyed db'
  same :
      (key : String) (id : ℕ)
      → id_of key (names db.events) ≡ some id
      → id_of key (names db'.events) ≡ some id

Named-Stays : {db db' : NotificationDb} → IsKeyed db → Named db db' → Stays db db'
Named-Stays d (same, next) = record { keyed = rw (same, next) d; same = λ key id h. rw same h }

no_key :
    (key : String) (xs : List NotificationEvent)
    → find (has_dedupe_key key) xs ≡ none
    → id_of key (names xs) ≡ none
unfolding names id_of
no_key key [] h = refl
no_key key (x ∷ xs) h = ground (arith, no_key key xs)

module _ (n : Notice) (db : NotificationDb) (d : IsKeyed db) where
  enqueue-Stays : Stays db (enqueue_notification n db).1
  unfolding enqueue_notification names id_of
  enqueue-Stays = elim (Option-cases (find (has_dedupe_key n.key) db.events)) [
    | inr (e, there) ↦ rw there (record { keyed = d; same = λ _ _ h. h })
    | inl nothing ↦ rw nothing (record {
      keyed = (omega arith, d);
      same = λ key id h. ground (arith, eq_iff n.key key, no_key n.key db.events nothing);
    })
  ]

  enqueue-id_of :
      let (e, db') = enqueue_notification n db in id_of n.key (names db'.events) ≡ some e.id
  unfolding enqueue_notification names id_of
  enqueue-id_of = elim (Option-cases (find (has_dedupe_key n.key) db.events)) [
    | inr (e, there) ↦ rw there (find-id_of n.key e db.events there)
    | inl nothing ↦ rw (nothing, eq_refl n.key) refl
  ]

step-Stays : (s : Step) (w : World) → IsKeyed w.db → Stays w.db (step s w).db
unfolding step set_preferences
step-Stays (enqueuing n) w d = enqueue-Stays n w.db d
step-Stays (preferring owner values) w d = record { keyed = d; same = λ _ _ h. h }
step-Stays (watching lists) w d = record { keyed = d; same = λ _ _ h. h }
step-Stays (beginning now id) w d =
    rw (record_send-db id w.sends (deliver_begin now id w.db))
      (Named-Stays d (begin-Named now id w.db d))
step-Stays (completing now jitter id token o) w d =
    Named-Stays d (complete-Named now jitter id token o w.db d)

schedule-Stays : (steps : List Step) (w : World) → IsKeyed w.db → Stays w.db (schedule steps w).db
unfolding schedule
schedule-Stays [] w d = record { keyed = d; same = λ _ _ h. h }
schedule-Stays (s ∷ steps) w d =
    let first = step-Stays s w d in
    let rest = schedule-Stays steps (step s w) first.keyed in
    record { keyed = rest.keyed; same = λ key id h. rest.same key id (first.same key id h) }

-- In an outbox whose events have primary keys of their own: an event that is put in again under the
-- same key, after whatever the workers and the callers did since the first time, is the event that
-- the key finds then, which is the one of the first time. It is answered as it stands, with its
-- status, its attempts and its payload, and the second call writes nothing.
pub enqueue_once :
    (n m : Notice) (steps : List Step) (w : World)
    → IsKeyed w.db
    → m.key ≡ n.key
    → let later = schedule steps (step (enqueuing n) w) in
      (e : NotificationEvent) × (find (has_dedupe_key n.key) later.db.events ≡ some e)
      × (e.id ≡ (enqueue_notification n w.db).0.id)
      × (enqueue_notification m later.db ≡ (e, later.db))
unfolding step
enqueue_once n m steps w d same =
    let w' = record w { db = (enqueue_notification n w.db).1 } in
    let first = enqueue-Stays n w.db d in
    let listed = (schedule-Stays steps w' first.keyed).same n.key _ (enqueue-id_of n w.db d) in
    let (e, found, id) = id_of-find n.key _ _ listed in
    (e, found, id, (unfold enqueue_notification in (rw (same, found) refl)))
