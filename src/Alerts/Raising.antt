-- ===== src/Alerts/Raising.antt =====
-- `_apply_result` and `evaluate_device_alerts` of backend/app/core/alerts.py.
pub mod Unique
use cyclope_central.Base.{
  ℕ, ◌+◌, String, Bool, true, false, ◌&&◌, Option, none, some, List, [], ◌∷◌, ◌++◌, ◌==◌,
  if◌then◌else◌,
}
use cyclope_central.Session.{select, scalar, add, write}
use cyclope_central.Models.Device.{
  Device, DiskInventory, DeviceInventory, SecurityStatus, UpdateStatus,
}
use cyclope_central.Models.Alert.{
  Float, AlertStatus, AlertRule, Message, Metadata, Alert, AlertEventType, AlertEvent, plain,
}
use cyclope_central.Database.{Db, flush}
use cyclope_central.Notifications.Enqueue.{enqueue_alert_notifications}
use cyclope_central.Alerts.Rules.{AlertSettings, RuleTable, rule_at, ensure_default_alert_rules}
use cyclope_central.Alerts.Evaluation.{
  RuleResult, MemoryReport, eval_offline, eval_low_disk, eval_high_memory, eval_bool_false,
  eval_bool_true, eval_updates_stale, eval_agent_version, eval_inventory_stale,
}

-- `Alert.status.in_(["active", "acknowledged"])`
unfoldable pub is_open : AlertStatus → Bool
is_open AlertStatus.active = true
is_open AlertStatus.acknowledged = true
is_open AlertStatus.resolved = false

-- the `where` of the query of `_apply_result`
unfoldable pub is_open_for : ℕ → ℕ → ℕ → Alert → Bool
unfolding is_open
is_open_for device_id rule_id alert_id alert =
    (alert.device_id == device_id) && (alert.rule_id == rule_id) && is_open alert.status

-- `_event`
unfoldable pub add_event : ℕ → Alert → AlertEventType → Message → Metadata → Db → Db
add_event alert_id alert event_type message metadata db = record db {
  alert_events =
      db.alert_events
      ++ record {
        organization_id = alert.organization_id;
        alert_id = alert_id;
        event_type = event_type;
        message = message;
        metadata_json = metadata;
      }
        ∷ [];
}

unfoldable pub new_alert : ℕ → ℕ → Device → ℕ → AlertRule → RuleResult → Alert
new_alert now device_id device rule_id rule result = record {
  organization_id = device.organization_id;
  device_id = device_id;
  rule_id = rule_id;
  severity = rule.severity;
  status = AlertStatus.active;
  title = result.title;
  message = result.message;
  first_seen_at = now;
  last_seen_at = now;
  acknowledged_at = none;
  resolved_at = none;
}

insert_alert : Alert → Db → Db
insert_alert alert db =
    flush (record db { next_id = db.next_id + 1; alerts = add db.next_id alert db.alerts })

unfoldable pub write_alert : ℕ → Alert → Db → Db
write_alert alert_id alert db = record db { alerts = write alert_id alert db.alerts }

unfoldable pub raise_alert : ℕ → ℕ → Device → ℕ → AlertRule → RuleResult → Db → Db
unfolding new_alert insert_alert add_event
raise_alert now device_id device rule_id rule result db =
    let alert = new_alert now device_id device rule_id rule result in
    enqueue_alert_notifications now db.next_id alert (
      add_event db.next_id alert AlertEventType.created result.message result.metadata
        (insert_alert alert db))

unfoldable pub repeated_alert : ℕ → RuleResult → Alert → Alert
repeated_alert now result alert = record alert { last_seen_at = now; message = result.message }

unfoldable pub cleared_alert : ℕ → Alert → Alert
cleared_alert now alert = record alert {
  status = AlertStatus.resolved;
  resolved_at = some now;
  last_seen_at = now;
}

unfoldable pub repeat_alert : ℕ → ℕ → Alert → RuleResult → Db → Db
unfolding repeated_alert write_alert add_event
repeat_alert now alert_id alert result db =
    let alert' = repeated_alert now result alert in
    add_event alert_id alert' AlertEventType.repeated result.message result.metadata
      (write_alert alert_id alert' db)

unfoldable pub clear_alert : ℕ → ℕ → Alert → RuleResult → Db → Db
unfolding cleared_alert write_alert add_event
clear_alert now alert_id alert result db =
    let alert' = cleared_alert now alert in
    add_event alert_id alert' AlertEventType.resolved
      (plain "Alert condition cleared automatically.") result.metadata
      (write_alert alert_id alert' db)

unfoldable pub apply_to : ℕ → ℕ → Device → ℕ → AlertRule → RuleResult → Option (ℕ × Alert) → Db → Db
apply_to now device_id device rule_id rule result none db =
    if result.active then raise_alert now device_id device rule_id rule result db else db
apply_to now device_id device rule_id rule result (some (alert_id, alert)) db =
    if result.active
    then repeat_alert now alert_id alert result db
    else clear_alert now alert_id alert result db

unfoldable pub apply_result : ℕ → ℕ → Device → ℕ → AlertRule → RuleResult → Db → Db
unfolding apply_to
apply_result now device_id device rule_id rule result db =
    apply_to now device_id device rule_id rule result
      (scalar (is_open_for device_id rule_id) db.alerts) db

-- One round of the loop over `results`. That `rules[key]` finds a rule is a theorem of Alerts/Rules.
unfoldable pub apply_rule : ℕ → ℕ → Device → String → (AlertRule → RuleResult) → RuleTable → Db → Db
apply_rule now device_id device key evaluate rules db = elim (rule_at key rules) [
  | none ↦ db
  | some (rule_id, rule) ↦
      if rule.enabled then apply_result now device_id device rule_id rule (evaluate rule) db else db
]

unfoldable pub apply_rules :
    ℕ → ℕ → Device → List (String × (AlertRule → RuleResult)) → RuleTable → Db → Db
apply_rules now device_id device [] rules db = db
apply_rules now device_id device ((key, evaluate) ∷ rest) rules db =
    apply_rules now device_id device rest rules
      (apply_rule now device_id device key evaluate rules db)

unfoldable pub first_value {ℓ} : {A : Type ℓ} → Option (ℕ × A) → Option A
first_value none = none
first_value (some (k, a)) = some a

unfoldable pub disks_of : ℕ → List DiskInventory → List DiskInventory
disks_of device_id [] = []
disks_of device_id (d ∷ rest) =
    let later = disks_of device_id rest in if d.device_id == device_id then d ∷ later else later

unfoldable pub defender_of : Option SecurityStatus → Option Bool
defender_of none = none
defender_of (some s) = s.defender_enabled

unfoldable pub firewall_of : Option SecurityStatus → Option Bool
firewall_of none = none
firewall_of (some s) = s.firewall_enabled

unfoldable pub reboot_of : Option UpdateStatus → Option Bool
reboot_of none = none
reboot_of (some u) = u.pending_reboot

module _ (settings : AlertSettings) (percent : ℕ → ℕ → Float) (round_2 : Float → Float)
    (float_lt : Float → Float → Bool) (is_zero : Float → Bool) where
  -- the dict `results`, each evaluation waiting for its rule
  unfoldable pub evaluations :
      ℕ → ℕ → Device → MemoryReport → Db → List (String × (AlertRule → RuleResult))
  unfolding first_value disks_of defender_of firewall_of reboot_of
  evaluations now device_id device report db =
      let inventory =
        first_value
          (scalar (λ k (i : DeviceInventory). i.device_id == device_id) db.inventory.snapshots) in
      let disks = disks_of device_id db.inventory.disks in
      let security =
        first_value
          (scalar (λ k (s : SecurityStatus). s.device_id == device_id) db.inventory.security) in
      let updates =
        first_value
          (scalar (λ k (u : UpdateStatus). u.device_id == device_id) db.inventory.updates) in
      ("device_offline", λ rule. eval_offline settings device rule now)
      ∷ ("low_disk_free_space", eval_low_disk settings percent round_2 float_lt disks)
      ∷ ("high_memory_usage", eval_high_memory settings percent round_2 float_lt is_zero report)
      ∷ (
        "defender_disabled",
        λ rule.
            eval_bool_false (defender_of security) "Windows Defender disabled"
              "Windows Defender is disabled or unhealthy.",
      )
      ∷ (
        "firewall_disabled",
        λ rule.
            eval_bool_false (firewall_of security) "Firewall disabled"
              "Endpoint firewall is disabled.",
      )
      ∷ (
        "pending_reboot",
        λ rule.
            eval_bool_true (reboot_of updates) "Pending reboot"
              "Endpoint reports a pending reboot.",
      )
      ∷ ("windows_updates_stale", λ rule. eval_updates_stale settings updates rule now)
      ∷ ("agent_version_outdated", λ rule. eval_agent_version settings device rule)
      ∷ ("inventory_not_refreshed", λ rule. eval_inventory_stale settings inventory rule now)
      ∷ []

  unfoldable pub evaluate_device_alerts : ℕ → ℕ → Device → MemoryReport → Db → Db
  unfolding evaluations apply_rules
  evaluate_device_alerts now device_id device report db =
      let (rules, ready) = ensure_default_alert_rules settings device.organization_id db in
      apply_rules now device_id device (evaluations now device_id device report ready) rules ready
