-- ===== src/Notification/Delivery.antt =====
-- `deliver_notification` and `_finish` of apps/api/app/workers/notifications.py, with `LocalSink.send`.
-- A delivery over an external channel has two transactions with the send between them, and other
-- workers may run in that time: `deliver_begin` is the first and `deliver_complete` the second. What
-- the channel answers, and `random.uniform(0, 1)` in microseconds, are arguments.
use procure_delta.Prelude.{
  ℕ, suc, String, Bool, true, false, not, ◌&&◌, ◌||◌, Option, none, some, List, [], ◌∷◌, ◌==◌,
  str_eq, ltb, leb, if◌then◌else◌, find, any, is_some, ◌+◌, ◌*◌, ◌^◌,
}
use procure_delta.Notification.Schema.{
  Status, pending, sending, sent, dead_lettered, cancelled, NotificationEvent, NotificationDb,
  JobFailure, LocalNotificationReceipt, has_event_id, put_event, is_terminal, allows,
  get_preferences,
}

pub record DeliveryResult : Type 0 where
  pub success : Bool
  pub retryable : Bool
  pub error_code : String

abbrev pub max_attempts : ℕ
max_attempts = 3

abbrev pub second : ℕ
second = 1000000

abbrev pub lease_seconds : ℕ
lease_seconds = 60

abbrev pub safe_codes : List String
safe_codes =
    "channel_not_configured" ∷ "delivery_failed" ∷ "transport_error" ∷ "unsafe_destination"
    ∷ "attempts_exhausted" ∷ "http_429" ∷ "http_503" ∷ "http_4xx" ∷ "http_5xx" ∷ "http_redirect"
    ∷ "smtp_auth" ∷ "smtp_rejected" ∷ "smtp_4xx" ∷ "smtp_5xx" ∷ []

unfoldable pub safe_code : String → String
safe_code code = if any (str_eq code) safe_codes then code else "delivery_failed"

-- The failure rows after a success.
abbrev pub reset_failure : String → List JobFailure → List JobFailure
reset_failure key [] = []
reset_failure key (x ∷ xs) =
    (if str_eq x.job_key key
      then record x { attempts = 0; dead_lettered = false; next_retry_at = none }
      else x)
    ∷ reset_failure key xs

-- An insertion that updates the row of the same key on conflict.
abbrev pub upsert_failure : JobFailure → List JobFailure → List JobFailure
upsert_failure f [] = f ∷ []
upsert_failure f (x ∷ xs) = if str_eq x.job_key f.job_key then f ∷ xs else x ∷ upsert_failure f xs

abbrev pub is_final : NotificationEvent → DeliveryResult → Bool
is_final e result = not result.retryable || leb max_attempts e.attempt_count

-- The row that `_finish` leaves.
unfoldable pub finished : ℕ → ℕ → NotificationEvent → DeliveryResult → NotificationEvent
finished now jitter e result =
    if result.success
    then record e { lease_token = none; next_attempt_at = none; status = sent; sent_at = some now }
    else if is_final e result
    then record e { lease_token = none; next_attempt_at = none; status = dead_lettered }
    else record e {
      lease_token = none;
      next_attempt_at = some (now + (2 ^ e.attempt_count * second + jitter));
      status = pending;
    }

abbrev pub failure_of : ℕ → NotificationEvent → DeliveryResult → JobFailure
failure_of now e result = record {
  job_key = e.dedupe_key;
  attempts = e.attempt_count;
  error_message = safe_code result.error_code;
  last_error_at = now;
  notification_event_id = e.id;
  dead_lettered = is_final e result;
  next_retry_at = e.next_attempt_at;
}

unfoldable pub finish : ℕ → ℕ → NotificationEvent → DeliveryResult → NotificationDb → NotificationDb
finish now jitter e result db =
    let e' = finished now jitter e result in
    record db {
      events = put_event e' db.events;
      failures =
          if result.success
          then reset_failure e.dedupe_key db.failures
          else upsert_failure
              (record (failure_of now e result) { next_retry_at = e'.next_attempt_at }) db.failures;
    }

-- `LocalSink.send`
abbrev pub local_send : NotificationEvent → NotificationDb → NotificationDb
local_send e db = record db {
  receipts =
      if any (λ (r : LocalNotificationReceipt). r.notification_event_id == e.id) db.receipts
      then db.receipts
      else record { notification_event_id = e.id; payload_json = e.payload_json } ∷ db.receipts;
}

pub data Reply : Type 0 where
  missing not_due lease_lost : Reply
  -- The event's status.
  at_status : Status → Reply

-- Where the first transaction leaves a worker: it answers, or it is about to send with its token.
pub data Begun : Type 0 where
  answered : Reply → Begun
  leased : ℕ → Begun

abbrev pub is_later : Option ℕ → ℕ → Bool
is_later none now = false
is_later (some at) now = ltb now at

abbrev pub is_unwatched : NotificationEvent → NotificationDb → Bool
is_unwatched e db =
    not (str_eq e.template_key "new_high_relevance")
    && not (
        is_some (
          find (λ w. str_eq w.user_id e.user_id && (w.opportunity_id == e.opportunity_id))
            db.watchlists))

-- The user no longer wants the event.
abbrev pub is_unwanted : NotificationEvent → NotificationDb → Bool
is_unwanted e db =
    not (allows (get_preferences db e.user_id) e.channel e.template_key) || is_unwatched e db

abbrev pub success_result : DeliveryResult
success_result = record { success = true; retryable = false; error_code = "delivery_failed" }

abbrev pub exhausted : DeliveryResult
exhausted = record { success = false; retryable = false; error_code = "attempts_exhausted" }

-- The row of an attempt that has begun.
abbrev pub claimed : ℕ → ℕ → NotificationEvent → NotificationEvent
claimed now token e = record e {
  attempt_count = suc e.attempt_count;
  lease_token = some token;
  status = sending;
  next_attempt_at = some (now + lease_seconds * second);
}

-- The attempt: a local event is received and finished in the same transaction.
unfoldable pub begin_attempt : ℕ → NotificationEvent → NotificationDb → Begun × NotificationDb
begin_attempt now e db =
    let token = db.next_token in
    let e' = claimed now token e in
    let db' = record db { events = put_event e' db.events; next_token = suc token } in
    if str_eq e.channel "local"
    then (
      answered (at_status (finished now 0 e' success_result).status),
      finish now 0 e' success_result (local_send e' db'),
    )
    else (leased token, db')

unfoldable pub begin_found : ℕ → NotificationEvent → NotificationDb → Begun × NotificationDb
begin_found now e db =
    if is_terminal e.status
    then (answered (at_status e.status), db)
    else if is_later e.next_attempt_at now
    then (answered not_due, db)
    else if is_unwanted e db
    then (
      answered (at_status cancelled),
      record db {
        events =
            put_event (record e { status = cancelled; next_attempt_at = none; lease_token = none })
              db.events;
      },
    )
    else if leb max_attempts e.attempt_count
    then (answered (at_status dead_lettered), finish now 0 e exhausted db)
    else begin_attempt now e db

unfoldable pub begin_event : ℕ → Option NotificationEvent → NotificationDb → Begun × NotificationDb
begin_event now none db = (answered missing, db)
begin_event now (some e) db = begin_found now e db

-- `deliver_notification` up to the external send.
unfoldable pub deliver_begin : ℕ → ℕ → NotificationDb → Begun × NotificationDb
deliver_begin now id db = begin_event now (find (has_event_id id) db.events) db

-- What the call of the channel's `send` comes to.
pub data SendOutcome : Type 0 where
  returned : DeliveryResult → SendOutcome
  -- OSError or TimeoutError
  transport_failed : SendOutcome
  -- any other exception
  failed : SendOutcome

abbrev pub outcome_result : SendOutcome → DeliveryResult
outcome_result (returned result) = result
outcome_result transport_failed = record {
  success = false;
  retryable = true;
  error_code = "transport_error";
}
outcome_result failed = record {
  success = false;
  retryable = false;
  error_code = "delivery_failed";
}

abbrev pub holds_lease : ℕ → Option ℕ → Bool
holds_lease token none = false
holds_lease token (some t) = t == token

unfoldable pub complete_event :
    ℕ
    → ℕ
    → ℕ
    → DeliveryResult
    → Option NotificationEvent
    → NotificationDb
    → Option Reply × NotificationDb
complete_event now jitter token result none db = (none, db)
complete_event now jitter token result (some e) db =
    if holds_lease token e.lease_token
    then (some (at_status (finished now jitter e result).status), finish now jitter e result db)
    else (some lease_lost, db)

-- The rest of `deliver_notification`, after the send; `none` is the failed assertion.
unfoldable pub deliver_complete :
    ℕ → ℕ → ℕ → ℕ → SendOutcome → NotificationDb → Option Reply × NotificationDb
deliver_complete now jitter id token o db =
    complete_event now jitter token (outcome_result o) (find (has_event_id id) db.events) db
