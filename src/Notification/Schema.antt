-- ===== src/Notification/Schema.antt =====
-- The tables of apps/api/app/models/schema.py that a notification's delivery reads and writes, and the
-- preferences of apps/api/app/notifications/preferences.py. The rows of JobFailure are those of the
-- job type "deliver_notification". A payload is a text; a preference row holds values that
-- PreferenceValues accepted when it was written.
use procure_delta.Prelude.{
  ℕ, String, Bool, true, false, ◌&&◌, Option, none, some, List, [], ◌∷◌, ◌==◌, str_eq,
  if◌then◌else◌, find, any,
}

pub data Status : Type 0 where
  pending sending sent dead_lettered cancelled : Status

pub record NotificationEvent : Type 0 where
  pub id : ℕ
  pub user_id : String
  pub opportunity_id : ℕ
  pub delta_id : Option ℕ
  pub channel : String
  pub template_key : String
  pub payload_json : String
  pub status : Status
  pub attempt_count : ℕ
  pub next_attempt_at : Option ℕ
  pub dedupe_key : String
  pub sent_at : Option ℕ
  pub lease_token : Option ℕ

pub record NotificationPreference : Type 0 where
  pub user_id : String
  pub enabled : Bool
  pub channels : List String
  pub triggers : List String

pub record LocalNotificationReceipt : Type 0 where
  pub notification_event_id : ℕ
  pub payload_json : String

pub record Watchlist : Type 0 where
  pub user_id : String
  pub opportunity_id : ℕ

pub record JobFailure : Type 0 where
  pub job_key : String
  pub attempts : ℕ
  pub error_message : String
  pub last_error_at : ℕ
  pub notification_event_id : ℕ
  pub dead_lettered : Bool
  pub next_retry_at : Option ℕ

-- The tables, the next primary key and the next token of `uuid4`.
pub record NotificationDb : Type 0 where
  pub events : List NotificationEvent
  pub preferences : List NotificationPreference
  pub receipts : List LocalNotificationReceipt
  pub watchlists : List Watchlist
  pub failures : List JobFailure
  pub next_id : ℕ
  pub next_token : ℕ

-- `status in {"sent", "dead_lettered", "cancelled"}`
abbrev pub is_terminal : Status → Bool
is_terminal sent = true
is_terminal dead_lettered = true
is_terminal cancelled = true
is_terminal pending = false
is_terminal sending = false

abbrev pub has_event_id : ℕ → NotificationEvent → Bool
has_event_id id e = e.id == id

-- The update of a row.
abbrev pub put_event : NotificationEvent → List NotificationEvent → List NotificationEvent
put_event e [] = []
put_event e (x ∷ xs) = (if x.id == e.id then e else x) ∷ put_event e xs

-- The values of a preference row without its key.
pub record PreferenceValues : Type 0 where
  pub enabled : Bool
  pub channels : List String
  pub triggers : List String

abbrev pub default_preferences : PreferenceValues
default_preferences = record {
  enabled = true;
  channels = "local" ∷ [];
  triggers =
      "new_high_relevance" ∷ "watched_material_change" ∷ "deadline_changed" ∷ "eligibility_changed"
      ∷ "outcome_published" ∷ [];
}

abbrev pub allows : PreferenceValues → String → String → Bool
allows p channel trigger =
    p.enabled && any (str_eq channel) p.channels && any (str_eq trigger) p.triggers

abbrev pub preference_values : Option NotificationPreference → PreferenceValues
preference_values none = default_preferences
preference_values (some row) = record {
  enabled = row.enabled;
  channels = row.channels;
  triggers = row.triggers;
}

abbrev pub get_preferences : NotificationDb → String → PreferenceValues
get_preferences db owner = preference_values (find (λ p. str_eq p.user_id owner) db.preferences)
