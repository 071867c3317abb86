-- ===== src/Devices/Reported.antt =====
-- What the agent of a device has reported, and the device's alerts: the other handlers of
-- backend/app/api/devices.py. A response shows the rows themselves; those of the lists have no key here.
use mathlib.Core.List.{reverse}
use cyclope_central.Base.{
  ℕ, String, Bool, false, ◌&&◌, Option, none, some, List, [], ◌∷◌, ◌==◌, map, if◌then◌else◌,
}
use cyclope_central.Http.{Result, ok, err, ◌>>=◌, ◌>>◌, not_found}
use cyclope_central.Session.{select, scalar}
use cyclope_central.Session.Query.{order_by}
use cyclope_central.Models.Tenant.{User}
use cyclope_central.Models.Device.{
  DeviceInventory, DiskInventory, NetworkInterfaceInventory, InstalledSoftware, SecurityStatus,
  UpdateStatus,
}
use cyclope_central.Database.{Db}
use cyclope_central.Auth.Roles.{require_permission}
use cyclope_central.Alerts.Api.{AlertResponse, alert_response, order_by_seen}
use cyclope_central.Jobs.Api.{owned_device}

-- the first row that a query hands back, or 404
unfoldable pub first_or_404 {ℓ} : {A : Type ℓ} → String → Option (ℕ × A) → Result A
first_or_404 detail none = err (not_found detail)
first_or_404 detail (some (k, row)) = ok row

-- the rows that are about a device
unfoldable pub rows_of {ℓ} : {A : Type ℓ} → (A → ℕ) → ℕ → List A → List A
rows_of device_of device_id [] = []
rows_of device_of device_id (row ∷ rest) =
    let later = rows_of device_of device_id rest in
    if device_of row == device_id then row ∷ later else later

pub record DeviceInventoryResponse : Type 0 where
  pub inventory : DeviceInventory
  pub disks : List DiskInventory
  pub network_interfaces : List NetworkInterfaceInventory

unfoldable pub get_device_inventory : ℕ → User → Db → Result DeviceInventoryResponse
unfolding first_or_404 rows_of
get_device_inventory device_id current db = do
  require_permission "devices:read" current
  device ← owned_device "Device not found" device_id current.organization_id db
  inventory ←
      first_or_404 "Inventory not found"
        (scalar (λ k i. i.device_id == device_id) db.inventory.snapshots)
  ok (record {
    inventory = inventory;
    disks = rows_of (λ d. d.device_id) device_id db.inventory.disks;
    network_interfaces = rows_of (λ n. n.device_id) device_id db.inventory.interfaces;
  })

pub record SoftwareInventoryResponse : Type 0 where
  pub device_id : ℕ
  pub inventory_refreshed_at : Option ℕ
  pub software : List InstalledSoftware

unfoldable pub refreshed_at : Option (ℕ × DeviceInventory) → Option ℕ
refreshed_at none = none
refreshed_at (some (k, inventory)) = some inventory.inventory_refreshed_at

unfoldable pub get_device_software :
    (String → String → Bool) → ℕ → User → Db → Result SoftwareInventoryResponse
unfolding refreshed_at rows_of
get_device_software collates device_id current db = do
  require_permission "devices:read" current
  device ← owned_device "Device not found" device_id current.organization_id db
  ok (record {
    device_id = device_id;
    inventory_refreshed_at =
        refreshed_at (scalar (λ k i. i.device_id == device_id) db.inventory.snapshots);
    software =
        order_by (λ a b. collates a.name b.name)
          (rows_of (λ s. s.device_id) device_id db.inventory.software);
  })

unfoldable pub get_device_security : ℕ → User → Db → Result SecurityStatus
unfolding first_or_404
get_device_security device_id current db = do
  require_permission "devices:read" current
  device ← owned_device "Device not found" device_id current.organization_id db
  first_or_404 "Security status not found"
      (scalar (λ k s. s.device_id == device_id) db.inventory.security)

unfoldable pub get_device_updates : ℕ → User → Db → Result UpdateStatus
unfolding first_or_404
get_device_updates device_id current db = do
  require_permission "devices:read" current
  device ← owned_device "Device not found" device_id current.organization_id db
  first_or_404 "Update status not found"
      (scalar (λ k u. u.device_id == device_id) db.inventory.updates)

unfoldable pub get_device_alerts : ℕ → User → Db → Result (List AlertResponse)
unfolding order_by_seen alert_response
get_device_alerts device_id current db = do
  require_permission "alerts:read" current
  device ← owned_device "Device not found" device_id current.organization_id db
  ok (
      map (alert_response false db) (
        reverse (
          order_by_seen (
            select
              (λ k a. (a.device_id == device_id) && (a.organization_id == current.organization_id))
              db.alerts))))
