-- ===== src/Notifications/Enqueue.antt =====
-- `enqueue_alert_notifications` of backend/app/core/notifications.py. The ids in `channel_ids` are
-- texts of UUIDs, since `_validate_rule_filters` wrote them, so `UUID(str(channel_id))` never fails.
pub mod Usable
use cyclope_central.Base.{
  ℕ, ◌+◌, String, Bool, true, false, not, ◌&&◌, ◌||◌, Option, none, some, List, [], ◌∷◌, ◌++◌, ◌==◌,
  is_in, is_some, if◌then◌else◌,
}
use cyclope_central.Base.Json.{Text, Dict, str, codes, decimal}
use cyclope_central.Session.{get, select, add}
use cyclope_central.Models.Alert.{Severity, info, warning, critical, Alert, AlertRule}
use cyclope_central.Models.Notification.{
  NotificationChannel, NotificationRule, NotificationDelivery, pending, skipped,
}
use cyclope_central.Database.{Db, add_audit}

unfoldable pub severity_eq : Severity → Severity → Bool
severity_eq info info = true
severity_eq warning warning = true
severity_eq critical critical = true
severity_eq _ _ = false

unfoldable pub has_severity : Severity → List Severity → Bool
unfolding severity_eq
has_severity s [] = false
has_severity s (x ∷ xs) = severity_eq s x || has_severity s xs

-- A filter that is empty lets everything through.
unfoldable pub severity_passes : Severity → List Severity → Bool
unfolding has_severity
severity_passes s [] = true
severity_passes s (x ∷ xs) = has_severity s (x ∷ xs)

unfoldable pub key_passes : String → List String → Bool
key_passes key [] = true
key_passes key (x ∷ xs) = is_in key (x ∷ xs)

-- neither `continue` of the loop over the rules is taken
unfoldable pub matches : Alert → AlertRule → NotificationRule → Bool
unfolding severity_passes key_passes
matches alert alert_rule rule =
    severity_passes alert.severity rule.severity_filter
    && key_passes alert_rule.rule_key rule.alert_rule_type_filter

-- `_get_enabled_channel`
unfoldable pub usable : ℕ → Option NotificationChannel → Bool
usable organization_id none = false
usable organization_id (some channel) =
    (channel.organization_id == organization_id) && channel.enabled

unfoldable pub new_delivery : ℕ → ℕ → Alert → ℕ → Bool → NotificationDelivery
new_delivery now alert_id alert channel_id has_channel = record {
  organization_id = alert.organization_id;
  alert_id = alert_id;
  channel_id = channel_id;
  status = if has_channel then pending else skipped;
  attempts = 0;
  last_error =
      if has_channel then none else some (codes "Notification channel missing or disabled.");
  sent_at = none;
  created_at = now;
}

insert_delivery : NotificationDelivery → Db → Db
insert_delivery d db = record db {
  next_id = db.next_id + 1;
  deliveries = add db.next_id d db.deliveries;
}

-- the body of the loop over a rule's channels
unfoldable pub enqueue_delivery : ℕ → ℕ → Alert → ℕ → Db → Db
unfolding usable new_delivery insert_delivery add_audit
enqueue_delivery now alert_id alert channel_id db =
    let has_channel = usable alert.organization_id (get channel_id db.channels) in
    let delivery = new_delivery now alert_id alert channel_id has_channel in
    add_audit alert.organization_id none "notification.enqueued" "alert" (some alert_id)
      (("channel_id", str (decimal channel_id))
        ∷ ("status", str (codes (if has_channel then "pending" else "skipped")))
        ∷ [])
      (insert_delivery delivery db)

unfoldable pub enqueue_channels : ℕ → ℕ → Alert → List ℕ → Db → Db
enqueue_channels now alert_id alert [] db = db
enqueue_channels now alert_id alert (channel_id ∷ rest) db =
    enqueue_channels now alert_id alert rest (enqueue_delivery now alert_id alert channel_id db)

unfoldable pub enqueue_rules : ℕ → ℕ → Alert → AlertRule → List (ℕ × NotificationRule) → Db → Db
unfolding matches enqueue_channels
enqueue_rules now alert_id alert alert_rule [] db = db
enqueue_rules now alert_id alert alert_rule ((rule_id, rule) ∷ rest) db =
    enqueue_rules now alert_id alert alert_rule rest (
      if matches alert alert_rule rule
      then enqueue_channels now alert_id alert rule.channel_ids db
      else db)

-- the rules of the alert's organization that are enabled
unfoldable pub enabled_rules : Alert → Db → List (ℕ × NotificationRule)
enabled_rules alert db =
    select (λ rule_id rule. (rule.organization_id == alert.organization_id) && rule.enabled)
      db.notification_rules

unfoldable pub enqueue_alert_notifications : ℕ → ℕ → Alert → Db → Db
unfolding enqueue_rules enabled_rules
enqueue_alert_notifications now alert_id alert db = elim (get alert.rule_id db.alert_rules) [
  | none ↦ db
  | some alert_rule ↦ enqueue_rules now alert_id alert alert_rule (enabled_rules alert db) db
]
