-- ===== src/Examples.antt =====
-- The test data of the examples: an organization with an owner, a device, its agent and a job, as
-- backend/app keeps them.
pub mod Operations
pub mod Devices
pub mod Jobs
pub mod Alerts
pub mod Access
pub mod Users
pub mod Agents
pub mod Notifications
use cyclope_central.Base.{ℕ, String, Bool, true, false, Option, none, some, List, [], ◌∷◌, ◌==◌}
use cyclope_central.Base.Int.{ℤ, pos}
use cyclope_central.Base.Json.{Text, codes}
use cyclope_central.Http.{Result, ok, err}
use cyclope_central.Session.{Row, Table}
use cyclope_central.Models.Tenant.{Organization, User, RefreshToken}
use cyclope_central.Models.Device.{Device, Agent, EnrollmentToken}
use cyclope_central.Models.Job.{JobStatus, AgentJob}
use cyclope_central.Models.Alert.{
  Float, Severity, critical, warning, AlertStatus, AlertRule, Alert, plain,
}
use cyclope_central.Models.Notification.{ChannelConfig, email, webhook, NotificationChannel}
use cyclope_central.Models.Remote.{RemoteDeviceLink}
use cyclope_central.Database.{Db, empty}
use cyclope_central.Alerts.Rules.{AlertSettings, no_parameters}
use cyclope_central.Agents.Checkin.{CheckinRequest}

abbrev pub saved {ℓ} : {A : Type ℓ} → ℕ → A → Table A
saved k a = record { key = k; stored = some a; live = a } ∷ []

-- what a request that succeeds gives
abbrev pub value_of {ℓ} : {A : Type ℓ} → A → Result A → A
value_of a (ok b) = b
value_of a (err e) = a

-- a keyed hash that is good enough for tests, and a reading of texts
abbrev pub test_hash : Text → Text
test_hash t = 7 ∷ t

abbrev pub test_parse : Text → Option ℤ
test_parse t = some (pos 210000)

abbrev pub office : Organization
office = record { name = codes "Office"; slug = codes "office" }

abbrev pub boss : User
boss = record {
  organization_id = 1;
  email = codes "boss@office.example";
  hashed_password = [];
  role = "owner";
  is_active = true;
}

abbrev pub laptop : Device
laptop = record {
  organization_id = 1;
  hostname = "laptop";
  operating_system = "Windows 11";
  architecture = some "amd64";
  machine_identifier = "machine-3";
  ip_address = none;
  agent_version = some "1.0.0";
  health_status = "healthy";
  status = "online";
  is_online = true;
  last_seen_at = some 5;
}

abbrev pub laptop_agent : Agent
laptop_agent = record {
  organization_id = 1;
  device_id = some 3;
  version = "1.0.0";
  install_id = "machine-3";
  device_secret_hash = 7 ∷ codes "a secret of the laptop";
  last_seen_at = some 5;
}

abbrev pub ping : AgentJob
ping = record {
  organization_id = 1;
  device_id = 3;
  assigned_agent_id = none;
  job_type = "ping";
  status = JobStatus.queued;
  payload = [];
  expires_at = 100;
  created_at = 10;
  started_at = none;
  completed_at = none;
  result_summary = none;
}

abbrev pub offline_rule : AlertRule
offline_rule = record {
  organization_id = 1;
  rule_key = "device_offline";
  name = "Device offline";
  severity = critical;
  description = "Device has not checked in within the configured window.";
  enabled = true;
  parameters = no_parameters;
}

abbrev pub offline_alert : Alert
offline_alert = record {
  organization_id = 1;
  device_id = 3;
  rule_id = 6;
  severity = critical;
  status = AlertStatus.active;
  title = "Device offline";
  message = plain "No check-in.";
  first_seen_at = 20;
  last_seen_at = 20;
  acknowledged_at = none;
  resolved_at = none;
}

abbrev pub mail_channel : NotificationChannel
mail_channel = record {
  organization_id = 1;
  name = "Mail";
  enabled = true;
  config = email ("ops@office.example" ∷ []);
}

abbrev pub laptop_link : RemoteDeviceLink
laptop_link = record {
  organization_id = 1;
  device_id = 3;
  provider_config_id = none;
  provider_type = "rustdesk_oss";
  rustdesk_id = some "123456789";
  installed = true;
  last_status = "installed";
  last_reported_at = some 5;
}

abbrev pub session_token : RefreshToken
session_token = record {
  organization_id = 1;
  user_id = 2;
  token_hash = 7 ∷ codes "refresh";
  expires_at = 1000;
  revoked_at = none;
}

abbrev pub invitation : EnrollmentToken
invitation = record {
  organization_id = 1;
  token_hash = 7 ∷ codes "invitation";
  expires_at = 1000;
  max_uses = 1;
  uses = 0;
  revoked_at = none;
  created_by_user_id = none;
}

abbrev pub office_db : Db
office_db = record empty {
  next_id = 20;
  organizations = saved 1 office;
  users = saved 2 boss;
  refresh_tokens = saved 8 session_token;
  devices = saved 3 laptop;
  agents = saved 4 laptop_agent;
  enrollment_tokens = saved 9 invitation;
  jobs = saved 5 ping;
  alert_rules = saved 6 offline_rule;
  alerts = saved 7 offline_alert;
  channels = saved 10 mail_channel;
  links = saved 11 laptop_link;
}

abbrev pub test_settings : AlertSettings
test_settings = record {
  device_offline_minutes = 10;
  low_disk_free_percent = 10;
  high_memory_percent = 90;
  windows_update_stale_days = 14;
  inventory_stale_hours = 24;
  current_agent_version = "1.0.0";
}

abbrev pub laptop_checkin : CheckinRequest
laptop_checkin = record {
  device_id = 3;
  device_secret = codes "a secret of the laptop";
  hostname = "laptop";
  operating_system = "Windows 11";
  architecture = some "amd64";
  agent_version = "1.0.0";
  ip_address = none;
  local_ips = [];
  uptime_seconds = some 60;
  cpu_count = some 8;
  memory_total_bytes = some 100;
  memory_used_bytes = some 95;
  health_status = "healthy";
  inventory = none;
  remote_access = none;
}
