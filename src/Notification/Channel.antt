-- ===== src/Notification/Channel.antt =====
-- The choice of the channel in `deliver_notification` of apps/api/app/workers/notifications.py. A
-- secret is its text, and the SMTP transport is there where its host is set and not empty.
use procure_delta.Prelude.{
  ℕ, ◌≡◌, arith, String, Bool, false, Option, none, some, str_eq, if◌then◌else◌, get_or,
}
use procure_delta.Notification.Schema.{NotificationEvent}
use procure_delta.Notification.Delivery.{DeliveryResult}

pub record SmtpTransport : Type 0 where
  pub host : String
  pub port : ℕ
  pub username : Option String
  pub password : Option String
  pub starttls : Bool

-- The settings that the delivery reads.
pub record NotificationSettings : Type 0 where
  pub external_enabled : Bool
  pub webhook_destinations : String → Option String
  pub webhook_formats : String → Option String
  pub email_recipients : String → Option String
  pub email_sender : Option String
  pub smtp : Option SmtpTransport

pub data Channel : Type 0 where
  -- A channel of the worker's context.
  provided : ℕ → Channel
  webhook : String → String → Channel
  email : SmtpTransport → String → String → Channel
  unconfigured : Channel

-- `and destination`: an empty text counts as none.
abbrev pub nonempty : Option String → Option String
nonempty none = none
nonempty (some s) = if str_eq s "" then none else some s

abbrev pub webhook_channel : NotificationSettings → String → Option String → Option Channel
webhook_channel s user none = none
webhook_channel s user (some destination) =
    if s.external_enabled
    then some (webhook destination (get_or "generic" (s.webhook_formats user)))
    else none

abbrev pub email_channel :
    NotificationSettings → Option SmtpTransport → Option String → Option String → Option Channel
email_channel s (some transport) (some sender) (some recipient) =
    if s.external_enabled then some (email transport sender recipient) else none
email_channel s none sender recipient = none
email_channel s (some transport) none recipient = none
email_channel s (some transport) (some sender) none = none

-- The channel of the context, else the one that the settings configure.
unfoldable pub choose_channel : Option ℕ → NotificationSettings → NotificationEvent → Channel
choose_channel (some c) s e = provided c
choose_channel none s e =
    if str_eq e.channel "webhook"
    then get_or unconfigured
        (webhook_channel s e.user_id (nonempty (s.webhook_destinations e.user_id)))
    else if str_eq e.channel "email"
    then get_or unconfigured
        (email_channel s s.smtp (nonempty s.email_sender) (nonempty (s.email_recipients e.user_id)))
    else unconfigured

-- `UnconfiguredChannel.send`
abbrev pub unconfigured_result : DeliveryResult
unconfigured_result = record {
  success = false;
  retryable = false;
  error_code = "channel_not_configured";
}

-- Where sending outside is switched off and the context provides no channel, no event has one:
-- its channel is the unconfigured one.
pub external_disabled :
    (s : NotificationSettings) (e : NotificationEvent)
    → s.external_enabled ≡ false
    → choose_channel none s e ≡ unconfigured
unfolding choose_channel
external_disabled s e off = ground arith
