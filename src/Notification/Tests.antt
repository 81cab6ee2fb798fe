-- ===== src/Notification/Tests.antt =====
-- Deliveries of apps/api/app/workers/notifications.py on one event of each channel.
use procure_delta.Prelude.{arith, ℕ, ◌≡◌, refl, true, none, some, List, [], ◌∷◌, find}
use procure_delta.Notification.Schema.{
  pending, sending, sent, NotificationEvent, PreferenceValues, has_event_id,
}
use procure_delta.Notification.Delivery.{
  answered, at_status, returned, transport_failed, finished, finish, begin_attempt, begin_found,
  begin_event, deliver_begin, complete_event, deliver_complete, success_result,
}
use procure_delta.Notification.Channel.{
  NotificationSettings, unconfigured, choose_channel, external_disabled,
}
use procure_delta.Prelude.{false}
use procure_delta.Notification.Outbox.{
  Notice, set_preferences, enqueue_notification, has_dedupe_key,
}
use procure_delta.Notification.Schedule.{
  Step, enqueuing, preferring, beginning, completing, World, step, schedule,
}
use procure_delta.Notification.Schedule.Invariant.{IsValid, schedule-IsValid}
use procure_delta.Notification.Schedule.Terminal.{terminal_stays}
use procure_delta.Notification.Schedule.Report.{report_once}
use procure_delta.Notification.Schedule.Dedupe.{names, enqueue_once}

abbrev empty : World
empty = record {
  db = record {
    events = [];
    preferences = [];
    receipts = [];
    watchlists = [];
    failures = [];
    next_id = 1;
    next_token = 1;
  };
  sends = [];
}

abbrev hook : Notice
hook = record {
  user_id = "ana";
  opportunity_id = 5;
  channel = "webhook";
  template_key = "new_high_relevance";
  payload = "{}";
  delta_id = none;
  key = "k1";
}

abbrev wants : PreferenceValues
wants = record { enabled = true; channels = "webhook" ∷ []; triggers = "new_high_relevance" ∷ [] }

abbrev busy : List Step
busy =
    enqueuing hook
    ∷ preferring "ana" wants
    ∷ beginning 10 1
    ∷ completing 20 500 1 1 transport_failed
    ∷ []

empty-IsValid : IsValid empty
empty-IsValid = record { events = tt; fresh = λ k _. refl }

-- A transport error leaves the event pending, with one attempt spent and a time to retry.
retried :
    find (has_event_id 1) (schedule busy empty).db.events
    ≡ some (record {
      id = 1;
      user_id = "ana";
      opportunity_id = 5;
      delta_id = none;
      channel = "webhook";
      template_key = "new_high_relevance";
      payload_json = "{}";
      status = pending;
      attempt_count = 1;
      next_attempt_at = some 2000520;
      dedupe_key = "k1";
      sent_at = none;
      lease_token = none;
    })
unfolding schedule step enqueue_notification set_preferences deliver_begin begin_event begin_found
    begin_attempt deliver_complete complete_event finish finished
retried = refl

schedule-IsValid_example : IsValid (schedule busy empty)
schedule-IsValid_example = schedule-IsValid busy empty empty-IsValid

-- An event that is being sent under the token 1.
abbrev in_flight : NotificationEvent
in_flight = record {
  id = 1;
  user_id = "ana";
  opportunity_id = 5;
  delta_id = none;
  channel = "webhook";
  template_key = "new_high_relevance";
  payload_json = "{}";
  status = sending;
  attempt_count = 1;
  next_attempt_at = some 60000010;
  dedupe_key = "k1";
  sent_at = none;
  lease_token = some 1;
}

abbrev flying : World
flying = record empty {
  db = record empty.db { events = in_flight ∷ []; next_id = 2; next_token = 2 };
  sends = 1 ∷ [];
}

abbrev done_event : NotificationEvent
done_event = record in_flight {
  status = sent;
  next_attempt_at = none;
  sent_at = some 20;
  lease_token = none;
}

abbrev landed : World
landed = record flying { db = record flying.db { events = done_event ∷ [] } }

landed-IsValid : IsValid landed
landed-IsValid = record {
  events = (
    record {
      counted = omega arith;
      limited = omega arith;
      known = omega arith;
      leased_while_sending = refl;
      dated_when_sent = refl;
    },
    tt,
  );
  fresh = λ k le. ground arith;
}

terminal_stays_example :
    (find (has_event_id 1) (schedule busy landed).db.events ≡ some done_event)
    × ((now : ℕ)
        → deliver_begin now 1 (schedule busy landed).db
          ≡ (answered (at_status sent), (schedule busy landed).db))
terminal_stays_example = terminal_stays busy landed landed-IsValid 1 done_event refl refl

accepted : (deliver_complete 20 0 1 1 (returned success_result) flying.db).0 ≡ some (at_status sent)
unfolding deliver_complete complete_event finish finished
accepted = refl

report_once_example :
    let after =
      schedule busy (record flying {
        db = (deliver_complete 20 0 1 1 (returned success_result) flying.db).1;
      }) in
    (deliver_complete 30 0 1 1 transport_failed after.db).1 ≡ after.db
report_once_example =
    report_once busy flying 1 1 20 0 (returned success_result) sent (omega arith) accepted 30 0
      transport_failed

enqueue_once_example :
    let later = schedule busy (step (enqueuing hook) empty) in
    (e : NotificationEvent) × (find (has_dedupe_key hook.key) later.db.events ≡ some e)
    × (e.id ≡ (enqueue_notification hook empty.db).0.id)
    × (enqueue_notification hook later.db ≡ (e, later.db))
enqueue_once_example = enqueue_once hook hook busy empty (unfold names in tt) refl

abbrev switched_off : NotificationSettings
switched_off = record {
  external_enabled = false;
  webhook_destinations = λ _. some "https://example.test/hook";
  webhook_formats = λ _. none;
  email_recipients = λ _. none;
  email_sender = none;
  smtp = none;
}

external_disabled_example : choose_channel none switched_off in_flight ≡ unconfigured
external_disabled_example = external_disabled switched_off in_flight refl
