-- ===== src/Notifications/Webhook.antt =====
-- `build_webhook_payload` of backend/app/core/notifications.py. `show_uuid` is `str()` of a key, and
-- `isoformat` that of a time; the texts of severity, status and message are kept as the alert has them.
use cyclope_central.Base.{ℕ, String}
use cyclope_central.Base.Json.{Text}
use cyclope_central.Models.Alert.{Severity, AlertStatus, Message, Alert}

pub record WebhookPayload : Type 0 where
  pub event : String
  pub id : Text
  pub organization_id : Text
  pub device_id : Text
  pub rule_id : Text
  pub severity : Severity
  pub status : AlertStatus
  pub title : String
  pub message : Message
  pub first_seen_at : Text
  pub last_seen_at : Text

unfoldable pub build_webhook_payload : (ℕ → Text) → (ℕ → Text) → ℕ → Alert → WebhookPayload
build_webhook_payload show_uuid isoformat alert_id alert = record {
  event = "alert.created";
  id = show_uuid alert_id;
  organization_id = show_uuid alert.organization_id;
  device_id = show_uuid alert.device_id;
  rule_id = show_uuid alert.rule_id;
  severity = alert.severity;
  status = alert.status;
  title = alert.title;
  message = alert.message;
  first_seen_at = isoformat alert.first_seen_at;
  last_seen_at = isoformat alert.last_seen_at;
}
