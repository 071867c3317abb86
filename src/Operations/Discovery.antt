-- ===== src/Operations/Discovery.antt =====
-- The discovery handlers of backend/app/api/operations.py. `now` is the time of the request, `created`
-- that of the database.
use cyclope_central.Base.{
  ℕ, String, Option, some, List, [], ◌∷◌, ◌==◌, leb, is_some, map, if◌then◌else◌,
}
use cyclope_central.Base.Int.{ℤ}
use cyclope_central.Base.Json.{Dict, str, codes}
use cyclope_central.Http.{Result, ok, ◌>>=◌, ◌>>◌}
use cyclope_central.Session.{select, add}
use cyclope_central.Session.Query.{order_by}
use cyclope_central.Models.Tenant.{User}
use cyclope_central.Models.Operations.{DiscoveryScan, DiscoveredDevice}
use cyclope_central.Database.{Db}
use cyclope_central.Auth.Roles.{require_permission}
use cyclope_central.Operations.{store, ensure_device, commit_audited}

pub record DiscoveryScanRequest : Type 0 where
  pub scan_type : String
  pub device_id : Option ℕ
  pub scheduled_for : Option ℕ

pub record DiscoveredDeviceRequest : Type 0 where
  pub ip_address : String
  pub hostname : Option String
  pub mac_address : Option String
  pub vendor : Option String
  pub open_ports : List ℤ
  pub snmp_data : Dict

pub record ScanListed : Type 0 where
  pub id : ℕ
  pub scan_type : String
  pub status : String
  pub device_id : Option ℕ
  pub scheduled_for : Option ℕ

unfoldable pub scan_listed : ℕ × DiscoveryScan → ScanListed
scan_listed (k, s) = record {
  id = k;
  scan_type = s.scan_type;
  status = s.status;
  device_id = s.device_id;
  scheduled_for = s.scheduled_for;
}

unfoldable pub list_scans : User → Db → Result (List ScanListed)
unfolding scan_listed
list_scans current db = do
  require_permission "discovery:read" current
  ok (
      map scan_listed (
        order_by (λ a b. leb b.1.created_at a.1.created_at)
          (select (λ k s. s.organization_id == current.organization_id) db.operations.scans)))

unfoldable pub new_scan : ℕ → ℕ → DiscoveryScanRequest → DiscoveryScan
new_scan created organization_id payload = record {
  organization_id = organization_id;
  device_id = payload.device_id;
  scan_type = payload.scan_type;
  status = if is_some payload.scheduled_for then "scheduled" else "manual";
  scheduled_for = payload.scheduled_for;
  created_at = created;
}

unfoldable pub insert_scan : DiscoveryScan → Db → Db
unfolding store
insert_scan scan db =
    store (record db.operations { scans = add db.next_id scan db.operations.scans }) db

pub record ScanCreated : Type 0 where
  pub id : ℕ
  pub scan_type : String
  pub status : String

unfoldable pub create_scan : ℕ → DiscoveryScanRequest → ℕ → User → Db → Result (ScanCreated × Db)
unfolding new_scan insert_scan
create_scan created payload current_id current db = do
  require_permission "discovery:write" current
  device ← ensure_device current payload.device_id db
  let scan = new_scan created current.organization_id payload
  ok (
    record { id = db.next_id; scan_type = scan.scan_type; status = scan.status },
    commit_audited current_id current "discovery.scan.created" "discovery_scan" (some db.next_id)
        (("scan_type", str (codes scan.scan_type)) ∷ []) (insert_scan scan db),
  )

pub record DiscoveredListed : Type 0 where
  pub id : ℕ
  pub ip_address : String
  pub hostname : Option String
  pub mac_address : Option String
  pub vendor : Option String
  pub open_ports : List ℤ
  pub last_seen_at : ℕ

unfoldable pub discovered_listed : ℕ × DiscoveredDevice → DiscoveredListed
discovered_listed (k, d) = record {
  id = k;
  ip_address = d.ip_address;
  hostname = d.hostname;
  mac_address = d.mac_address;
  vendor = d.vendor;
  open_ports = d.open_ports;
  last_seen_at = d.last_seen_at;
}

unfoldable pub list_discovered : User → Db → Result (List DiscoveredListed)
unfolding discovered_listed
list_discovered current db = do
  require_permission "discovery:read" current
  ok (
      map discovered_listed (
        order_by (λ a b. leb b.1.last_seen_at a.1.last_seen_at)
          (select (λ k d. d.organization_id == current.organization_id) db.operations.discovered)))

unfoldable pub new_discovered : ℕ → ℕ → DiscoveredDeviceRequest → DiscoveredDevice
new_discovered now organization_id payload = record {
  organization_id = organization_id;
  ip_address = payload.ip_address;
  hostname = payload.hostname;
  mac_address = payload.mac_address;
  vendor = payload.vendor;
  open_ports = payload.open_ports;
  snmp_data = payload.snmp_data;
  last_seen_at = now;
}

pub record DiscoveredCreated : Type 0 where
  pub id : ℕ
  pub ip_address : String
  pub hostname : Option String

unfoldable pub create_discovered :
    ℕ → DiscoveredDeviceRequest → ℕ → User → Db → Result (DiscoveredCreated × Db)
unfolding new_discovered store
create_discovered now payload current_id current db = do
  require_permission "discovery:write" current
  let found = new_discovered now current.organization_id payload
  ok (
    record { id = db.next_id; ip_address = found.ip_address; hostname = found.hostname },
    commit_audited current_id current "discovery.device.created" "discovered_device"
        (some db.next_id) (("ip_address", str (codes found.ip_address)) ∷ [])
        (store (record db.operations { discovered = add db.next_id found db.operations.discovered })
          db),
  )
