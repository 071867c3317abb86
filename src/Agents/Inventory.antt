-- ===== src/Agents/Inventory.antt =====
-- `upsert_inventory` of backend/app/api/inventory.py.
use cyclope_central.Agents.Payloads.{
  DiskPayload, InterfacePayload, SoftwarePayload, SecurityPayload, UpdatesPayload, InventoryPayload,
}
use cyclope_central.Base.{
  ℕ, ◌+◌, Option, none, some, List, [], ◌∷◌, ◌++◌, ◌==◌, if◌then◌else◌, length,
}
use cyclope_central.Base.Int.{pos}
use cyclope_central.Base.Json.{int}
use cyclope_central.Session.{scalar, add, write}
use cyclope_central.Models.Device.{
  Device, DeviceInventory, DiskInventory, NetworkInterfaceInventory, InstalledSoftware,
  SecurityStatus, UpdateStatus,
}
use cyclope_central.Database.{Db, add_audit}

-- the session with one more key taken
unfoldable pub take_key : Db → Db
take_key db = record db { next_id = db.next_id + 1 }

unfoldable pub snapshot : ℕ → ℕ → Device → InventoryPayload → DeviceInventory
snapshot now device_id device payload = record {
  device_id = device_id;
  organization_id = device.organization_id;
  hostname = device.hostname;
  operating_system = device.operating_system;
  os_version = payload.os_version;
  os_build = payload.os_build;
  architecture = device.architecture;
  agent_version = device.agent_version;
  cpu_model = payload.cpu_model;
  cpu_cores = payload.cpu_cores;
  memory_total_bytes = payload.memory_total_bytes;
  bios_vendor = payload.bios_vendor;
  bios_version = payload.bios_version;
  system_manufacturer = payload.system_manufacturer;
  system_model = payload.system_model;
  inventory_refreshed_at = now;
}

-- An existing row keeps its `device_id` and `organization_id`; all else is assigned.
unfoldable pub refreshed_snapshot :
    ℕ → Device → InventoryPayload → DeviceInventory → DeviceInventory
unfolding snapshot
refreshed_snapshot now device payload old = record (snapshot now old.device_id device payload) {
  organization_id = old.organization_id;
}

unfoldable pub upsert_snapshot :
    ℕ → ℕ → Device → InventoryPayload → Option (ℕ × DeviceInventory) → Db → Db
unfolding refreshed_snapshot take_key
upsert_snapshot now device_id device payload none db = record (take_key db) {
  inventory = record db.inventory {
    snapshots = add db.next_id (snapshot now device_id device payload) db.inventory.snapshots;
  };
}
upsert_snapshot now device_id device payload (some (k, old)) db = record db {
  inventory = record db.inventory {
    snapshots = write k (refreshed_snapshot now device payload old) db.inventory.snapshots;
  };
}

-- `delete(T).where(T.device_id == device.id)` on a list of rows, `device_of` reading the column
unfoldable pub delete_of {ℓ} : {A : Type ℓ} → (A → ℕ) → ℕ → List A → List A
delete_of device_of device_id [] = []
delete_of device_of device_id (a ∷ rest) =
    let kept = delete_of device_of device_id rest in
    if device_of a == device_id then kept else a ∷ kept

unfoldable pub disk_rows : ℕ → Device → List DiskPayload → List DiskInventory
disk_rows device_id device [] = []
disk_rows device_id device (d ∷ rest) =
    record {
      device_id = device_id;
      organization_id = device.organization_id;
      name = d.name;
      filesystem = d.filesystem;
      size_bytes = d.size_bytes;
      free_bytes = d.free_bytes;
    }
    ∷ disk_rows device_id device rest

unfoldable pub interface_rows : ℕ → Device → List InterfacePayload → List NetworkInterfaceInventory
interface_rows device_id device [] = []
interface_rows device_id device (a ∷ rest) =
    record {
      device_id = device_id;
      organization_id = device.organization_id;
      name = a.name;
      mac_address = a.mac_address;
      ip_addresses = a.ip_addresses;
    }
    ∷ interface_rows device_id device rest

unfoldable pub software_rows : ℕ → Device → List SoftwarePayload → List InstalledSoftware
software_rows device_id device [] = []
software_rows device_id device (s ∷ rest) =
    record {
      device_id = device_id;
      organization_id = device.organization_id;
      name = s.name;
      version = s.version;
      publisher = s.publisher;
      installed_at = s.installed_at;
    }
    ∷ software_rows device_id device rest

-- the three lists of a device, deleted and added anew
unfoldable pub replace_lists : ℕ → Device → InventoryPayload → Db → Db
unfolding delete_of disk_rows interface_rows software_rows
replace_lists device_id device payload db = record db {
  inventory = record db.inventory {
    disks =
        delete_of (λ (d : DiskInventory). d.device_id) device_id db.inventory.disks
        ++ disk_rows device_id device payload.disks;
    interfaces =
        delete_of (λ (a : NetworkInterfaceInventory). a.device_id) device_id db.inventory.interfaces
        ++ interface_rows device_id device payload.network_interfaces;
    software =
        delete_of (λ (s : InstalledSoftware). s.device_id) device_id db.inventory.software
        ++ software_rows device_id device payload.installed_software;
  };
}

unfoldable pub security_row : ℕ → ℕ → ℕ → SecurityPayload → SecurityStatus
security_row now device_id organization_id s = record {
  device_id = device_id;
  organization_id = organization_id;
  antivirus_product = s.antivirus_product;
  antivirus_enabled = s.antivirus_enabled;
  antivirus_up_to_date = s.antivirus_up_to_date;
  defender_enabled = s.defender_enabled;
  firewall_enabled = s.firewall_enabled;
  details = s.details;
  refreshed_at = now;
}

unfoldable pub upsert_security :
    ℕ → ℕ → Device → SecurityPayload → Option (ℕ × SecurityStatus) → Db → Db
unfolding security_row take_key
upsert_security now device_id device s none db = record (take_key db) {
  inventory = record db.inventory {
    security =
        add db.next_id (security_row now device_id device.organization_id s) db.inventory.security;
  };
}
upsert_security now device_id device s (some (k, old)) db = record db {
  inventory = record db.inventory {
    security = write k (security_row now old.device_id old.organization_id s) db.inventory.security;
  };
}

unfoldable pub updates_row : ℕ → ℕ → ℕ → UpdatesPayload → UpdateStatus
updates_row now device_id organization_id u = record {
  device_id = device_id;
  organization_id = organization_id;
  pending_reboot = u.pending_reboot;
  update_status = u.update_status;
  last_update_check_at = u.last_update_check_at;
  details = u.details;
  refreshed_at = now;
}

unfoldable pub upsert_updates :
    ℕ → ℕ → Device → UpdatesPayload → Option (ℕ × UpdateStatus) → Db → Db
unfolding updates_row take_key
upsert_updates now device_id device u none db = record (take_key db) {
  inventory = record db.inventory {
    updates =
        add db.next_id (updates_row now device_id device.organization_id u) db.inventory.updates;
  };
}
upsert_updates now device_id device u (some (k, old)) db = record db {
  inventory = record db.inventory {
    updates = write k (updates_row now old.device_id old.organization_id u) db.inventory.updates;
  };
}

-- the two parts that a payload may leave out
unfoldable pub security_part : ℕ → ℕ → Device → Option SecurityPayload → Db → Db
unfolding upsert_security
security_part now device_id device none db = db
security_part now device_id device (some s) db =
    upsert_security now device_id device s
      (scalar (λ k (row : SecurityStatus). row.device_id == device_id) db.inventory.security) db

unfoldable pub updates_part : ℕ → ℕ → Device → Option UpdatesPayload → Db → Db
unfolding upsert_updates
updates_part now device_id device none db = db
updates_part now device_id device (some u) db =
    upsert_updates now device_id device u
      (scalar (λ k (row : UpdateStatus). row.device_id == device_id) db.inventory.updates) db

unfoldable pub upsert_inventory : ℕ → ℕ → Device → InventoryPayload → Db → Db
unfolding upsert_snapshot replace_lists security_part updates_part add_audit
upsert_inventory now device_id device payload db =
    let found =
      scalar (λ k (row : DeviceInventory). row.device_id == device_id) db.inventory.snapshots in
    let stored =
      replace_lists device_id device payload
        (upsert_snapshot now device_id device payload found db) in
    let reported =
      updates_part now device_id device payload.updates
        (security_part now device_id device payload.security stored) in
    add_audit device.organization_id none "inventory.updated" "device" (some device_id)
      (("disk_count", int (pos (length payload.disks)))
        ∷ ("network_interface_count", int (pos (length payload.network_interfaces)))
        ∷ ("software_count", int (pos (length payload.installed_software)))
        ∷ [])
      reported
