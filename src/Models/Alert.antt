-- ===== src/Models/Alert.antt =====
-- Monitoring rules, the alerts they raise, and the alerts' lifecycle events.
use cyclope_central.Base.{ℕ, String, Bool, Option, List}

-- A float, by its 64-bit pattern.
abbrev pub Float : Type 0
Float = ℕ

pub data Severity : Type 0 where
  info warning critical : Severity

pub data AlertStatus : Type 0 where
  active acknowledged resolved : AlertStatus

-- The dict `parameters`, by the keys that the default definitions put there.
pub record Parameters : Type 0 where
  pub offline_minutes : Option ℕ
  pub free_percent : Option Float
  pub used_percent : Option Float
  pub stale_days : Option ℕ
  pub current_version : Option String
  pub stale_hours : Option ℕ

pub record AlertRule : Type 0 where
  pub organization_id : ℕ
  pub rule_key : String
  pub name : String
  pub severity : Severity
  pub description : String
  pub enabled : Bool
  pub parameters : Parameters

-- A message by its template and the values that the template is filled with.
pub data Message : Type 0 where
  plain : String → Message
  offline : String → ℕ → Message
  low_disks : ℕ → Float → Message
  memory : Float → Float → Message
  updates_stale : ℕ → Message
  version_differs : Option String → String → Message
  inventory_stale : ℕ → Message

-- `metadata`, by the rule that wrote it.
pub data Metadata : Type 0 where
  empty : Metadata
  offline : ℕ → Option ℕ → Metadata
  low_disks : Float → List (String × Float) → Metadata
  memory : Option Float → Float → Metadata
  reported : Option Bool → Metadata
  updates_stale : ℕ → Option String → Metadata
  version_differs : String → Option String → Metadata
  inventory_stale : ℕ → Option ℕ → Metadata

pub record Alert : Type 0 where
  pub organization_id : ℕ
  pub device_id : ℕ
  pub rule_id : ℕ
  pub severity : Severity
  pub status : AlertStatus
  pub title : String
  pub message : Message
  pub first_seen_at : ℕ
  pub last_seen_at : ℕ
  pub acknowledged_at : Option ℕ
  pub resolved_at : Option ℕ

pub data AlertEventType : Type 0 where
  created repeated acknowledged resolved : AlertEventType

pub record AlertEvent : Type 0 where
  pub organization_id : ℕ
  pub alert_id : ℕ
  pub event_type : AlertEventType
  pub message : Message
  pub metadata_json : Metadata
