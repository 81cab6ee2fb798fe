-- ===== src/Notification/Schedule.antt =====
-- Any interleaving of the workers' steps on the notification tables, with every external send recorded.
pub mod Rows
pub mod Invariant
pub mod Terminal
pub mod Report
pub mod Dedupe
use procure_delta.Prelude.{ℕ, String, List, [], ◌∷◌, Option}
use procure_delta.Notification.Schema.{PreferenceValues, Watchlist, NotificationDb}
use procure_delta.Notification.Delivery.{
  Begun, answered, leased, SendOutcome, deliver_begin, deliver_complete,
}
use procure_delta.Notification.Outbox.{Notice, enqueue_notification, set_preferences}

pub data Step : Type 0 where
  enqueuing : Notice → Step
  preferring : String → PreferenceValues → Step
  -- The watch lists change.
  watching : List Watchlist → Step
  -- A worker takes an event, at a time.
  beginning : ℕ → ℕ → Step
  -- A worker reports with its token: the time, the jitter, the event, the token and what its send came
  -- to. A worker that is cancelled never reports.
  completing : ℕ → ℕ → ℕ → ℕ → SendOutcome → Step

-- The database and the events that were handed to an external channel, the latest first.
pub record World : Type 0 where
  pub db : NotificationDb
  pub sends : List ℕ

abbrev pub record_send : ℕ → List ℕ → Begun × NotificationDb → World
record_send id sends (answered _, db) = record { db = db; sends = sends }
record_send id sends (leased _, db) = record { db = db; sends = id ∷ sends }

unfoldable pub step : Step → World → World
step (enqueuing n) w = record w { db = (enqueue_notification n w.db).1 }
step (preferring owner v) w = record w { db = set_preferences owner v w.db }
step (watching lists) w = record w { db = record w.db { watchlists = lists } }
step (beginning now id) w = record_send id w.sends (deliver_begin now id w.db)
step (completing now jitter id token o) w = record w {
  db = (deliver_complete now jitter id token o w.db).1;
}

unfoldable pub schedule : List Step → World → World
schedule [] w = w
schedule (s ∷ ss) w = schedule ss (step s w)
