-- ===== src/Database.antt =====
-- The state that the handlers of backend/app read and change: one session's view of the tables.
-- Rows that are only ever added are plain lists, newest last. `next_id` is the primary key of the next
-- object: `uuid4` gives each object a key that no other has.
use cyclope_central.Base.{ℕ, String, Option, List, [], ◌∷◌, ◌++◌}
use cyclope_central.Base.Json.{Dict}
use cyclope_central.Session
use cyclope_central.Session.{Table}
use cyclope_central.Models.Tenant.{Organization, User, RefreshToken, AuditLog}
use cyclope_central.Models.Device.{
  Device, Agent, EnrollmentToken, DeviceCheckin, DeviceInventory, DiskInventory,
  NetworkInterfaceInventory, InstalledSoftware, SecurityStatus, UpdateStatus,
}
use cyclope_central.Models.Job.{AgentJob, AgentJobEvent, AgentJobResult}
use cyclope_central.Models.Alert.{Alert, AlertEvent, AlertRule}
use cyclope_central.Models.Notification.{
  NotificationChannel, NotificationRule, NotificationDelivery,
}
use cyclope_central.Models.Operations.{Operations, flush_operations, no_operations}
use cyclope_central.Models.Platform.{Platform, flush_platform, no_platform}
use cyclope_central.Models.Remote.{RemoteProviderConfig, RemoteDeviceLink, RemoteSessionAudit}

-- The inventory of devices: the latest snapshot, and its lists.
pub record Inventory : Type 0 where
  pub snapshots : Table DeviceInventory
  pub disks : List DiskInventory
  pub interfaces : List NetworkInterfaceInventory
  pub software : List InstalledSoftware
  pub security : Table SecurityStatus
  pub updates : Table UpdateStatus

pub record Db : Type 0 where
  pub next_id : ℕ
  pub organizations : Table Organization
  pub users : Table User
  pub refresh_tokens : Table RefreshToken
  pub devices : Table Device
  pub agents : Table Agent
  pub enrollment_tokens : Table EnrollmentToken
  pub checkins : List DeviceCheckin
  pub inventory : Inventory
  pub jobs : Table AgentJob
  pub job_events : List AgentJobEvent
  pub job_results : List AgentJobResult
  pub alert_rules : Table AlertRule
  pub alerts : Table Alert
  pub alert_events : List AlertEvent
  pub channels : Table NotificationChannel
  pub notification_rules : Table NotificationRule
  pub deliveries : Table NotificationDelivery
  pub providers : Table RemoteProviderConfig
  pub links : Table RemoteDeviceLink
  pub remote_audits : List RemoteSessionAudit
  pub operations : Operations
  pub platform : Platform
  pub audit_logs : List AuditLog

flush_inventory : Inventory → Inventory
flush_inventory i = record i {
  snapshots = Session.flush i.snapshots;
  security = Session.flush i.security;
  updates = Session.flush i.updates;
}

-- `db.flush()`; `db.commit()` leaves the same view behind
unfoldable pub flush : Db → Db
unfolding flush_inventory flush_operations flush_platform
flush db = record db {
  organizations = Session.flush db.organizations;
  users = Session.flush db.users;
  refresh_tokens = Session.flush db.refresh_tokens;
  devices = Session.flush db.devices;
  agents = Session.flush db.agents;
  enrollment_tokens = Session.flush db.enrollment_tokens;
  inventory = flush_inventory db.inventory;
  jobs = Session.flush db.jobs;
  alert_rules = Session.flush db.alert_rules;
  alerts = Session.flush db.alerts;
  channels = Session.flush db.channels;
  notification_rules = Session.flush db.notification_rules;
  deliveries = Session.flush db.deliveries;
  providers = Session.flush db.providers;
  links = Session.flush db.links;
  operations = flush_operations db.operations;
  platform = flush_platform db.platform;
}

-- `db.add(AuditLog(...))`, with the actor where the caller gives one
unfoldable pub add_audit : ℕ → Option ℕ → String → String → Option ℕ → Dict → Db → Db
add_audit org actor action target_type target metadata db = record db {
  audit_logs =
      db.audit_logs
      ++ record {
        organization_id = org;
        actor_user_id = actor;
        action = action;
        target_type = target_type;
        target = target;
        metadata_json = metadata;
      }
        ∷ [];
}

abbrev pub empty : Db
empty = record {
  next_id = 1;
  organizations = [];
  users = [];
  refresh_tokens = [];
  devices = [];
  agents = [];
  enrollment_tokens = [];
  checkins = [];
  inventory = record {
    snapshots = [];
    disks = [];
    interfaces = [];
    software = [];
    security = [];
    updates = [];
  };
  jobs = [];
  job_events = [];
  job_results = [];
  alert_rules = [];
  alerts = [];
  alert_events = [];
  channels = [];
  notification_rules = [];
  deliveries = [];
  providers = [];
  links = [];
  remote_audits = [];
  operations = no_operations;
  platform = no_platform;
  audit_logs = [];
}
