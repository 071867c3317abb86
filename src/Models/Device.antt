-- ===== src/Models/Device.antt =====
-- Managed endpoints, their agents and check-ins, the enrollment tokens, and the latest inventory.
use cyclope_central.Base.{ℕ, String, Bool, Option, List}
use cyclope_central.Base.Json.{Dict, Text}

pub record Device : Type 0 where
  pub organization_id : ℕ
  pub hostname : String
  pub operating_system : String
  pub architecture : Option String
  pub machine_identifier : String
  pub ip_address : Option String
  pub agent_version : Option String
  pub health_status : String
  pub status : String
  pub is_online : Bool
  pub last_seen_at : Option ℕ

pub record Agent : Type 0 where
  pub organization_id : ℕ
  pub device_id : Option ℕ
  pub version : String
  pub install_id : String
  pub device_secret_hash : Text
  pub last_seen_at : Option ℕ

pub record EnrollmentToken : Type 0 where
  pub organization_id : ℕ
  pub token_hash : Text
  pub expires_at : ℕ
  pub max_uses : ℕ
  pub uses : ℕ
  pub revoked_at : Option ℕ
  pub created_by_user_id : Option ℕ

-- The `payload` that `checkin_agent` stores with a check-in.
pub record CheckinPayload : Type 0 where
  pub local_ips : List String
  pub uptime_seconds : Option ℕ
  pub cpu_count : Option ℕ
  pub memory_total_bytes : Option ℕ
  pub architecture : Option String
  pub inventory_refreshed : Bool
  pub remote_access_reported : Bool

pub record DeviceCheckin : Type 0 where
  pub organization_id : ℕ
  pub device_id : ℕ
  pub agent_id : ℕ
  pub status : String
  pub ip_address : Option String
  pub agent_version : String
  pub payload : CheckinPayload

pub record DeviceInventory : Type 0 where
  pub device_id : ℕ
  pub organization_id : ℕ
  pub hostname : String
  pub operating_system : String
  pub os_version : Option String
  pub os_build : Option String
  pub architecture : Option String
  pub agent_version : Option String
  pub cpu_model : Option String
  pub cpu_cores : Option ℕ
  pub memory_total_bytes : Option ℕ
  pub bios_vendor : Option String
  pub bios_version : Option String
  pub system_manufacturer : Option String
  pub system_model : Option String
  pub inventory_refreshed_at : ℕ

pub record DiskInventory : Type 0 where
  pub device_id : ℕ
  pub organization_id : ℕ
  pub name : String
  pub filesystem : Option String
  pub size_bytes : Option ℕ
  pub free_bytes : Option ℕ

pub record NetworkInterfaceInventory : Type 0 where
  pub device_id : ℕ
  pub organization_id : ℕ
  pub name : String
  pub mac_address : Option String
  pub ip_addresses : List String

pub record InstalledSoftware : Type 0 where
  pub device_id : ℕ
  pub organization_id : ℕ
  pub name : String
  pub version : Option String
  pub publisher : Option String
  pub installed_at : Option ℕ

pub record SecurityStatus : Type 0 where
  pub device_id : ℕ
  pub organization_id : ℕ
  pub antivirus_product : Option String
  pub antivirus_enabled : Option Bool
  pub antivirus_up_to_date : Option Bool
  pub defender_enabled : Option Bool
  pub firewall_enabled : Option Bool
  pub details : Dict
  pub refreshed_at : ℕ

pub record UpdateStatus : Type 0 where
  pub device_id : ℕ
  pub organization_id : ℕ
  pub pending_reboot : Option Bool
  pub update_status : Option String
  pub last_update_check_at : Option ℕ
  pub details : Dict
  pub refreshed_at : ℕ
