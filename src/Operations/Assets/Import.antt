-- ===== src/Operations/Assets/Import.antt =====
-- What `bulk_import_assets` of backend/app/api/operations.py accepts.
use cyclope_central.Base.{ℕ, ◌≡◌, List, is_in, All, none, true}
use cyclope_central.Session.{Table, Row, select}
use cyclope_central.Models.Operations.{Asset}
use cyclope_central.Database
use cyclope_central.Operations.Assets.{AssetRequest, asset_statuses}

-- The status of every item is one of the six.
abbrev pub HasValidStatuses : List AssetRequest → Type 0
HasValidStatuses items = All (λ item. is_in item.status asset_statuses ≡ true) items

-- The asset that an item asks for, in an organization.
abbrev pub described : ℕ → AssetRequest → Asset
described organization_id item = record {
  organization_id = organization_id;
  device_id = item.device_id;
  asset_tag = item.asset_tag;
  name = item.name;
  serial_number = item.serial_number;
  manufacturer = item.manufacturer;
  model = item.model;
  purchase_date = item.purchase_date;
  purchase_cost = item.purchase_cost;
  vendor = item.vendor;
  warranty_expiration = item.warranty_expiration;
  assigned_user = item.assigned_user;
  department = item.department;
  location = item.location;
  status = item.status;
  notes = item.notes;
}

-- every row of a table, as a query without a condition finds it
abbrev pub all_rows : Table Asset → List (ℕ × Asset)
all_rows t = select (λ k a. true) t

-- an asset that was added and not flushed yet
added_row : ℕ × Asset → Row Asset
added_row c = record { key = c.0; stored = none; live = c.1 }
