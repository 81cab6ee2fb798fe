-- ===== src/Notification/Outbox.antt =====
-- `enqueue_notification` of apps/api/app/notifications/service.py and `set_preferences` of
-- apps/api/app/notifications/preferences.py. The digest of the identity is an argument.
use procure_delta.Prelude.{
  ℕ, suc, String, Bool, Option, none, some, List, [], ◌∷◌, str_eq, if◌then◌else◌, find,
}
use procure_delta.Notification.Schema.{
  NotificationEvent, NotificationPreference, PreferenceValues, NotificationDb, pending,
}

-- The arguments of `enqueue_notification`, with the key that its identity hashes to.
pub record Notice : Type 0 where
  pub user_id : String
  pub opportunity_id : ℕ
  pub channel : String
  pub template_key : String
  pub payload : String
  pub delta_id : Option ℕ
  pub key : String

abbrev pub event_of : ℕ → Notice → NotificationEvent
event_of id n = record {
  id = id;
  user_id = n.user_id;
  opportunity_id = n.opportunity_id;
  delta_id = n.delta_id;
  channel = n.channel;
  template_key = n.template_key;
  payload_json = n.payload;
  status = pending;
  attempt_count = 0;
  next_attempt_at = none;
  dedupe_key = n.key;
  sent_at = none;
  lease_token = none;
}

abbrev pub has_dedupe_key : String → NotificationEvent → Bool
has_dedupe_key key e = str_eq e.dedupe_key key

abbrev pub enqueue_found :
    Notice → Option NotificationEvent → NotificationDb → NotificationEvent × NotificationDb
enqueue_found n (some e) db = (e, db)
enqueue_found n none db =
    let e = event_of db.next_id n in
    (e, record db { events = e ∷ db.events; next_id = suc db.next_id })

-- The event of the key, which is new where the key was not there.
unfoldable pub enqueue_notification : Notice → NotificationDb → NotificationEvent × NotificationDb
enqueue_notification n db = enqueue_found n (find (has_dedupe_key n.key) db.events) db

abbrev pub preference_row : String → PreferenceValues → NotificationPreference
preference_row owner v = record {
  user_id = owner;
  enabled = v.enabled;
  channels = v.channels;
  triggers = v.triggers;
}

abbrev pub upsert_preference :
    NotificationPreference → List NotificationPreference → List NotificationPreference
upsert_preference p [] = p ∷ []
upsert_preference p (x ∷ xs) =
    if str_eq x.user_id p.user_id then p ∷ xs else x ∷ upsert_preference p xs

unfoldable pub set_preferences : String → PreferenceValues → NotificationDb → NotificationDb
set_preferences owner v db = record db {
  preferences = upsert_preference (preference_row owner v) db.preferences;
}
