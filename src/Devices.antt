-- ===== src/Devices.antt =====
-- The device handlers of backend/app/api/devices.py: status and summary here, what the agent has
-- reported in Devices/Reported, and the counts of backend/app/api/dashboard.py in Devices/Summary.
-- `offline_after` is `settings.device_offline_after_seconds`.
pub mod Sync
pub mod Reported
pub mod Summary
use cyclope_central.Base.{
  ℕ, ◌+◌, ◌*◌, String, Bool, true, false, Option, none, some, List, [], ◌∷◌, ◌==◌, leb, map,
  if◌then◌else◌,
}
use cyclope_central.Http.{Result, ok, ◌>>=◌, ◌>>◌}
use cyclope_central.Session.{select, write}
use cyclope_central.Session.Query.{order_by}
use cyclope_central.Models.Tenant.{User}
use cyclope_central.Models.Device.{Device, DeviceCheckin}
use cyclope_central.Database.{Db, flush}
use cyclope_central.Auth.Roles.{require_permission}
use cyclope_central.Jobs.Api.{owned_device}

-- `last_seen >= now - timedelta(seconds=offline_after)`
unfoldable pub seen_within : ℕ → ℕ → Option ℕ → Bool
seen_within offline_after now none = false
seen_within offline_after now (some last_seen) = leb now (last_seen + 1000000 * offline_after)

unfoldable pub is_online : ℕ → ℕ → Device → Bool
unfolding seen_within
is_online offline_after now device = seen_within offline_after now device.last_seen_at

unfoldable pub status_name : Bool → String
status_name online = if online then "online" else "offline"

unfoldable pub sync_status : ℕ → ℕ → Device → Device
unfolding is_online status_name
sync_status offline_after now device = record device {
  is_online = is_online offline_after now device;
  status = status_name (is_online offline_after now device);
}

pub record DeviceSummary : Type 0 where
  pub id : ℕ
  pub hostname : String
  pub operating_system : String
  pub architecture : Option String
  pub ip_address : Option String
  pub agent_version : Option String
  pub health_status : String
  pub status : String
  pub is_online : Bool
  pub last_seen_at : Option ℕ

unfoldable pub summary : ℕ × Device → DeviceSummary
unfolding status_name
summary (device_id, device) = record {
  id = device_id;
  hostname = device.hostname;
  operating_system = device.operating_system;
  architecture = device.architecture;
  ip_address = device.ip_address;
  agent_version = device.agent_version;
  health_status = device.health_status;
  status = status_name device.is_online;
  is_online = device.is_online;
  last_seen_at = device.last_seen_at;
}

unfoldable pub write_device : ℕ → Device → Db → Db
write_device device_id device db = record db { devices = write device_id device db.devices }

-- the device with its latest check-in
pub record DeviceDetail : Type 0 where
  pub device : DeviceSummary
  pub machine_identifier : String
  pub latest_checkin : Option DeviceCheckin

-- The check-ins are in the order of their times, so the latest is the last.
unfoldable pub latest_checkin : ℕ → List DeviceCheckin → Option DeviceCheckin
latest_checkin device_id [] = none
latest_checkin device_id (c ∷ rest) = elim (latest_checkin device_id rest) [
  | none ↦ if c.device_id == device_id then some c else none
  | some later ↦ some later
]

module _ (offline_after now : ℕ) where
  unfoldable pub synced : ℕ × Device → ℕ × Device
  unfolding sync_status
  synced (device_id, device) = (device_id, sync_status offline_after now device)

  -- `_sync_status` for each of the devices
  unfoldable pub sync_devices : List (ℕ × Device) → Db → Db
  unfolding sync_status write_device
  sync_devices [] db = db
  sync_devices ((device_id, device) ∷ rest) db =
      sync_devices rest (write_device device_id (sync_status offline_after now device) db)

  unfoldable pub list_devices :
      (String → String → Bool) → User → Db → Result (List DeviceSummary × Db)
  unfolding synced sync_devices summary flush
  list_devices collates current db = do
    require_permission "devices:read" current
    let devices =
        order_by (λ a b. collates a.1.hostname b.1.hostname)
          (select (λ k d. d.organization_id == current.organization_id) db.devices)
    ok (map (λ d. summary (synced d)) devices, flush (sync_devices devices db))

  unfoldable pub get_device : ℕ → User → Db → Result (DeviceDetail × Db)
  unfolding sync_status write_device summary latest_checkin flush
  get_device device_id current db = do
    require_permission "devices:read" current
    device ← owned_device "Device not found" device_id current.organization_id db
    let device' = sync_status offline_after now device
    ok (
      record {
        device = summary (device_id, device');
        machine_identifier = device'.machine_identifier;
        latest_checkin = latest_checkin device_id db.checkins;
      },
      flush (write_device device_id device' db),
    )
