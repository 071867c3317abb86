-- ===== src/Models/Notification.antt =====
-- Notification channels, the rules that route alerts to them, and the delivery attempts.
use cyclope_central.Base.{ℕ, String, Bool, Option, List}
use cyclope_central.Base.Json.{Text}
use cyclope_central.Models.Alert.{Severity}

-- `channel_type` with the `config` that `validate_channel_config` lets through for it.
pub data ChannelConfig : Type 0 where
  email : List String → ChannelConfig
  webhook : String → List (String × String) → ChannelConfig

pub record NotificationChannel : Type 0 where
  pub organization_id : ℕ
  pub name : String
  pub enabled : Bool
  pub config : ChannelConfig

pub record NotificationRule : Type 0 where
  pub organization_id : ℕ
  pub name : String
  pub enabled : Bool
  pub severity_filter : List Severity
  pub alert_rule_type_filter : List String
  pub channel_ids : List ℕ

pub data DeliveryStatus : Type 0 where
  pending sent failed skipped : DeliveryStatus

pub record NotificationDelivery : Type 0 where
  pub organization_id : ℕ
  pub alert_id : ℕ
  pub channel_id : ℕ
  pub status : DeliveryStatus
  pub attempts : ℕ
  pub last_error : Option Text
  pub sent_at : Option ℕ
  pub created_at : ℕ
