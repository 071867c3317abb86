-- ===== src/Operations/Assets.antt =====
-- The asset handlers of backend/app/api/operations.py. `today` is `date.today()` as a number of days.
-- An asset is shown as its row, with its key.
pub mod Import
pub mod Warranty
use cyclope_central.Base.{
  ℕ, ◌+◌, String, Bool, false, not, ◌&&◌, Option, none, some, List, [], ◌∷◌, ◌==◌, ltb, leb, is_in,
  length, if◌then◌else◌,
}
use cyclope_central.Base.Int.{pos}
use cyclope_central.Base.Json.{Dict, str, int, codes}
use cyclope_central.Http.{Result, ok, ◌>>=◌, ◌>>◌, raise_if, bad_request}
use cyclope_central.Session.{scalar, select, add}
use cyclope_central.Session.Query.{order_by}
use cyclope_central.Models.Tenant.{User}
use cyclope_central.Models.Device.{Device, DeviceInventory}
use cyclope_central.Models.Operations.{Asset}
use cyclope_central.Database.{Db}
use cyclope_central.Auth.Roles.{require_permission}
use cyclope_central.Alerts.Evaluation.{has_text}
use cyclope_central.Operations.{store, ensure_device, commit_audited}

abbrev pub asset_statuses : List String
asset_statuses = "Active" ∷ "Spare" ∷ "Repair" ∷ "Retired" ∷ "Lost" ∷ "Disposal" ∷ []

pub record AssetRequest : Type 0 where
  pub asset_tag : String
  pub name : String
  pub device_id : Option ℕ
  pub serial_number : Option String
  pub manufacturer : Option String
  pub model : Option String
  pub purchase_date : Option ℕ
  pub purchase_cost : Option String
  pub vendor : Option String
  pub warranty_expiration : Option ℕ
  pub assigned_user : Option String
  pub department : Option String
  pub location : Option String
  pub status : String
  pub notes : Option String

-- an asset with the attributes of the request
unfoldable pub requested_asset : ℕ → AssetRequest → Asset
requested_asset organization_id payload = record {
  organization_id = organization_id;
  device_id = payload.device_id;
  asset_tag = payload.asset_tag;
  name = payload.name;
  serial_number = payload.serial_number;
  manufacturer = payload.manufacturer;
  model = payload.model;
  purchase_date = payload.purchase_date;
  purchase_cost = payload.purchase_cost;
  vendor = payload.vendor;
  warranty_expiration = payload.warranty_expiration;
  assigned_user = payload.assigned_user;
  department = payload.department;
  location = payload.location;
  status = payload.status;
  notes = payload.notes;
}

-- `a or b` on texts that may be `None` or empty
unfoldable pub or_text : Option String → Option String → Option String
unfolding has_text
or_text a b = if has_text a then a else b

unfoldable pub inventory_of : Option (ℕ × Device) → Db → Option DeviceInventory
inventory_of none db = none
inventory_of (some (device_id, device)) db =
    elim (scalar (λ k i. i.device_id == device_id) db.inventory.snapshots) [
      | none ↦ none
      | some (k, inventory) ↦ some inventory
    ]

machine_identifier_of : Option (ℕ × Device) → Option String
machine_identifier_of none = none
machine_identifier_of (some (device_id, device)) = some device.machine_identifier

manufacturer_of : Option DeviceInventory → Option String
manufacturer_of none = none
manufacturer_of (some inventory) = inventory.system_manufacturer

model_of : Option DeviceInventory → Option String
model_of none = none
model_of (some inventory) = inventory.system_model

-- what the device and its inventory know fills what the request leaves out
unfoldable pub completed_asset :
    ℕ → AssetRequest → Option (ℕ × Device) → Option DeviceInventory → Asset
unfolding requested_asset or_text machine_identifier_of manufacturer_of model_of
completed_asset organization_id payload device inventory =
    record (requested_asset organization_id payload) {
      serial_number = or_text payload.serial_number (machine_identifier_of device);
      manufacturer = or_text payload.manufacturer (manufacturer_of inventory);
      model = or_text payload.model (model_of inventory);
    }

unfoldable pub insert_asset : Asset → Db → Db
unfolding store
insert_asset asset db =
    store (record db.operations { assets = add db.next_id asset db.operations.assets }) db

unfoldable pub list_assets : (String → String → Bool) → User → Db → Result (List (ℕ × Asset))
list_assets collates current db = do
  require_permission "assets:read" current
  ok (
      order_by (λ a b. collates a.1.asset_tag b.1.asset_tag)
        (select (λ k a. a.organization_id == current.organization_id) db.operations.assets))

unfoldable pub create_asset : AssetRequest → ℕ → User → Db → Result ((ℕ × Asset) × Db)
unfolding completed_asset inventory_of insert_asset
create_asset payload current_id current db = do
  require_permission "assets:write" current
  raise_if (not (is_in payload.status asset_statuses)) (bad_request "Invalid asset status")
  device ← ensure_device current payload.device_id db
  let asset = completed_asset current.organization_id payload device (inventory_of device db)
  ok (
    (db.next_id, asset),
    commit_audited current_id current "asset.created" "asset" (some db.next_id)
        (("asset_tag", str (codes asset.asset_tag)) ∷ []) (insert_asset asset db),
  )

-- the loop of `bulk_import_assets`: the assets that it has added, with their keys
unfoldable pub import_assets : ℕ → List AssetRequest → Db → Result (List (ℕ × Asset) × Db)
unfolding insert_asset requested_asset
import_assets organization_id [] db = ok ([], db)
import_assets organization_id (item ∷ rest) db = do
  raise_if (not (is_in item.status asset_statuses)) (bad_request "Invalid asset status")
  let asset = requested_asset organization_id item
  (created, added) ← import_assets organization_id rest (insert_asset asset db)
  ok ((db.next_id, asset) ∷ created, added)

-- The count in the response is the length of the list.
unfoldable pub bulk_import_assets :
    List AssetRequest → ℕ → User → Db → Result (List (ℕ × Asset) × Db)
unfolding import_assets
bulk_import_assets items current_id current db = do
  require_permission "assets:write" current
  (created, added) ← import_assets current.organization_id items db
  ok (
    created,
    commit_audited current_id current "asset.bulk_imported" "asset" none
        (("count", int (pos (length created))) ∷ []) added,
  )

pub record WarrantyAlerts : Type 0 where
  pub expiring_30_days : List (ℕ × Asset)
  pub expired : List (ℕ × Asset)

-- A comparison with NULL does not hold.
unfoldable pub expires_within : ℕ → ℕ → Option ℕ → Bool
expires_within today soon none = false
expires_within today soon (some day) = leb today day && leb day soon

unfoldable pub expires_before : ℕ → Option ℕ → Bool
expires_before today none = false
expires_before today (some day) = ltb day today

unfoldable pub is_expiring : ℕ → ℕ → ℕ → Asset → Bool
unfolding expires_within
is_expiring today organization_id k a =
    (a.organization_id == organization_id)
    && expires_within today (today + 30) a.warranty_expiration

unfoldable pub is_expired : ℕ → ℕ → ℕ → Asset → Bool
unfolding expires_before
is_expired today organization_id k a =
    (a.organization_id == organization_id) && expires_before today a.warranty_expiration

unfoldable pub warranty_alerts : ℕ → User → Db → Result WarrantyAlerts
unfolding is_expiring is_expired
warranty_alerts today current db = do
  require_permission "assets:read" current
  ok (record {
    expiring_30_days = select (is_expiring today current.organization_id) db.operations.assets;
    expired = select (is_expired today current.organization_id) db.operations.assets;
  })
