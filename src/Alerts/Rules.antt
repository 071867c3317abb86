-- ===== src/Alerts/Rules.antt =====
-- The default rules of backend/app/core/alerts.py, and `ensure_default_alert_rules`.
pub mod Complete
use cyclope_central.Base.{
  ℕ, ◌+◌, String, Bool, true, Option, none, some, List, [], ◌∷◌, ◌++◌, ◌==◌, is_some, str_eq,
  if◌then◌else◌,
}
use cyclope_central.Session.{select, add}
use cyclope_central.Models.Alert.{Float, Severity, warning, critical, Parameters, AlertRule}
use cyclope_central.Database.{Db, flush}

-- The part of `Settings` that the alert rules read.
pub record AlertSettings : Type 0 where
  pub device_offline_minutes : ℕ
  pub low_disk_free_percent : Float
  pub high_memory_percent : Float
  pub windows_update_stale_days : ℕ
  pub inventory_stale_hours : ℕ
  pub current_agent_version : String

pub record RuleDefinition : Type 0 where
  pub key : String
  pub name : String
  pub severity : Severity
  pub description : String
  pub parameters : Parameters

abbrev pub no_parameters : Parameters
no_parameters = record {
  offline_minutes = none;
  free_percent = none;
  used_percent = none;
  stale_days = none;
  current_version = none;
  stale_hours = none;
}

unfoldable pub default_rule_definitions : AlertSettings → List RuleDefinition
default_rule_definitions settings =
    record {
      key = "device_offline";
      name = "Device offline";
      severity = critical;
      description = "Device has not checked in within the configured window.";
      parameters = record no_parameters { offline_minutes = some settings.device_offline_minutes };
    }
    ∷ record {
      key = "low_disk_free_space";
      name = "Low disk free space";
      severity = warning;
      description = "A disk is below the configured free-space percentage.";
      parameters = record no_parameters { free_percent = some settings.low_disk_free_percent };
    }
    ∷ record {
      key = "high_memory_usage";
      name = "High memory usage";
      severity = warning;
      description = "Memory usage reported by the agent exceeds the configured percentage.";
      parameters = record no_parameters { used_percent = some settings.high_memory_percent };
    }
    ∷ record {
      key = "defender_disabled";
      name = "Windows Defender disabled";
      severity = critical;
      description = "Windows Defender is reported disabled.";
      parameters = no_parameters;
    }
    ∷ record {
      key = "firewall_disabled";
      name = "Firewall disabled";
      severity = critical;
      description = "Endpoint firewall is reported disabled.";
      parameters = no_parameters;
    }
    ∷ record {
      key = "pending_reboot";
      name = "Pending reboot";
      severity = warning;
      description = "Endpoint reports a pending reboot.";
      parameters = no_parameters;
    }
    ∷ record {
      key = "windows_updates_stale";
      name = "Windows updates stale";
      severity = warning;
      description = "Windows update status is stale or reports stale updates.";
      parameters = record no_parameters { stale_days = some settings.windows_update_stale_days };
    }
    ∷ record {
      key = "agent_version_outdated";
      name = "Agent version outdated";
      severity = warning;
      description = "Agent version differs from the configured current version.";
      parameters = record no_parameters { current_version = some settings.current_agent_version };
    }
    ∷ record {
      key = "inventory_not_refreshed";
      name = "Inventory not refreshed recently";
      severity = warning;
      description = "Latest inventory refresh is older than the configured window.";
      parameters = record no_parameters { stale_hours = some settings.inventory_stale_hours };
    }
    ∷ []

-- The dict of an organization's rules by key: a later rule with the same key replaces an earlier one.
abbrev pub RuleTable : Type 0
RuleTable = List (ℕ × AlertRule)

unfoldable pub rule_at : String → RuleTable → Option (ℕ × AlertRule)
rule_at key [] = none
rule_at key ((rule_id, rule) ∷ rest) =
    let later = rule_at key rest in
    if is_some later then later else if str_eq rule.rule_key key then some (rule_id, rule) else none

unfoldable pub new_rule : ℕ → RuleDefinition → AlertRule
new_rule organization_id definition = record {
  organization_id = organization_id;
  rule_key = definition.key;
  name = definition.name;
  severity = definition.severity;
  description = definition.description;
  enabled = true;
  parameters = definition.parameters;
}

insert_rule : AlertRule → Db → Db
insert_rule rule db =
    flush (record db { next_id = db.next_id + 1; alert_rules = add db.next_id rule db.alert_rules })

unfoldable pub organization_rules : ℕ → Db → RuleTable
organization_rules organization_id db =
    select (λ rule_id rule. rule.organization_id == organization_id) db.alert_rules

-- the loop of `ensure_default_alert_rules`
unfoldable pub ensure_rules : ℕ → List RuleDefinition → RuleTable → Db → RuleTable × Db
unfolding insert_rule new_rule rule_at
ensure_rules organization_id [] existing db = (existing, db)
ensure_rules organization_id (definition ∷ rest) existing db =
    let rule = new_rule organization_id definition in
    let kept = ensure_rules organization_id rest existing db in
    let grown =
      ensure_rules organization_id rest (existing ++ (db.next_id, rule) ∷ [])
        (insert_rule rule db) in
    if is_some (rule_at definition.key existing) then kept else grown

unfoldable pub ensure_default_alert_rules : AlertSettings → ℕ → Db → RuleTable × Db
unfolding default_rule_definitions organization_rules ensure_rules
ensure_default_alert_rules settings organization_id db =
    ensure_rules organization_id (default_rule_definitions settings)
      (organization_rules organization_id db) db
