-- ===== src/Agents/Payloads.antt =====
-- The inventory that an agent sends with a check-in (backend/app/api/schemas.py).
use cyclope_central.Base.{ℕ, String, Bool, Option, List}
use cyclope_central.Base.Json.{Dict}

pub record DiskPayload : Type 0 where
  pub name : String
  pub filesystem : Option String
  pub size_bytes : Option ℕ
  pub free_bytes : Option ℕ

pub record InterfacePayload : Type 0 where
  pub name : String
  pub mac_address : Option String
  pub ip_addresses : List String

pub record SoftwarePayload : Type 0 where
  pub name : String
  pub version : Option String
  pub publisher : Option String
  pub installed_at : Option ℕ

pub record SecurityPayload : Type 0 where
  pub antivirus_product : Option String
  pub antivirus_enabled : Option Bool
  pub antivirus_up_to_date : Option Bool
  pub defender_enabled : Option Bool
  pub firewall_enabled : Option Bool
  pub details : Dict

pub record UpdatesPayload : Type 0 where
  pub pending_reboot : Option Bool
  pub update_status : Option String
  pub last_update_check_at : Option ℕ
  pub details : Dict

pub record InventoryPayload : Type 0 where
  pub os_version : Option String
  pub os_build : Option String
  pub cpu_model : Option String
  pub cpu_cores : Option ℕ
  pub memory_total_bytes : Option ℕ
  pub bios_vendor : Option String
  pub bios_version : Option String
  pub system_manufacturer : Option String
  pub system_model : Option String
  pub disks : List DiskPayload
  pub network_interfaces : List InterfacePayload
  pub installed_software : List SoftwarePayload
  pub security : Option SecurityPayload
  pub updates : Option UpdatesPayload
