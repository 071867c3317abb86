-- ===== src/Agents/Checkin.antt =====
-- `checkin_agent` of backend/app/api/agent.py.
pub mod Authentication
use cyclope_central.Agents.RustDesk.{RemoteAccessPayload, upsert_rustdesk_status}
use cyclope_central.Base.{
  ℕ, ◌+◌, String, Bool, true, false, not, ◌&&◌, Option, none, some, List, [], ◌∷◌, ◌++◌, ◌==◌,
  is_some, opt_eq, str_eq, leb, if◌then◌else◌,
}
use cyclope_central.Base.Json.{Text, str, codes}
use cyclope_central.Http.{Result, ok, err, ◌>>=◌, ◌>>◌, raise_if, unauthorized}
use cyclope_central.Session.{get, scalar, select, add, write}
use cyclope_central.Models.Device.{Device, Agent, CheckinPayload, DeviceCheckin}
use cyclope_central.Models.Alert.{Float}
use cyclope_central.Models.Remote.{RemoteProviderConfig, RemoteDeviceLink}
use cyclope_central.Database.{Db, flush, add_audit}
use cyclope_central.Auth.Tokens.{verify_token}
use cyclope_central.Alerts.Rules.{AlertSettings}
use cyclope_central.Alerts.Evaluation.{MemoryReport, has_text}
use cyclope_central.Alerts.Raising.{evaluate_device_alerts}
use cyclope_central.Agents.Inventory.{upsert_inventory}
use cyclope_central.Agents.Payloads.{InventoryPayload}

pub record CheckinRequest : Type 0 where
  pub device_id : ℕ
  pub device_secret : Text
  pub hostname : String
  pub operating_system : String
  pub architecture : Option String
  pub agent_version : String
  pub ip_address : Option String
  pub local_ips : List String
  pub uptime_seconds : Option ℕ
  pub cpu_count : Option ℕ
  pub memory_total_bytes : Option ℕ
  pub memory_used_bytes : Option ℕ
  pub health_status : String
  pub inventory : Option InventoryPayload
  pub remote_access : Option RemoteAccessPayload

-- `payload.ip_address or (request.client.host if request.client else None)`
unfoldable pub address_of : Option String → Option String → Option String
unfolding has_text
address_of reported client_host = if has_text reported then reported else client_host

unfoldable pub seen_device : ℕ → CheckinRequest → Option String → Device → Device
seen_device now payload ip_address device = record device {
  hostname = payload.hostname;
  operating_system = payload.operating_system;
  architecture = payload.architecture;
  ip_address = ip_address;
  agent_version = some payload.agent_version;
  health_status = payload.health_status;
  status = "online";
  is_online = true;
  last_seen_at = some now;
}

unfoldable pub seen_agent : ℕ → CheckinRequest → Agent → Agent
seen_agent now payload agent = record agent {
  version = payload.agent_version;
  last_seen_at = some now;
}

-- the dict `checkin_payload`
unfoldable pub checkin_payload : CheckinRequest → CheckinPayload
checkin_payload payload = record {
  local_ips = payload.local_ips;
  uptime_seconds = payload.uptime_seconds;
  cpu_count = payload.cpu_count;
  memory_total_bytes = payload.memory_total_bytes;
  architecture = payload.architecture;
  inventory_refreshed = is_some payload.inventory;
  remote_access_reported = is_some payload.remote_access;
}

-- `checkin_payload.get(key)` for the keys whose values are numbers
unfoldable pub number_at : String → CheckinPayload → Option ℕ
number_at key p =
    if str_eq key "uptime_seconds"
    then p.uptime_seconds
    else if str_eq key "cpu_count"
    then p.cpu_count
    else if str_eq key "memory_total_bytes"
    then p.memory_total_bytes
    else none

-- what `_eval_high_memory` reads in that dict
unfoldable pub memory_report : CheckinPayload → MemoryReport
unfolding number_at
memory_report p = record {
  memory_total_bytes = number_at "memory_total_bytes" p;
  memory_used_bytes = number_at "memory_used_bytes" p;
}

unfoldable pub inventory_part : ℕ → ℕ → Device → Option InventoryPayload → Db → Db
unfolding upsert_inventory
inventory_part now device_id device none db = db
inventory_part now device_id device (some p) db = upsert_inventory now device_id device p db

unfoldable pub remote_part : ℕ → ℕ → Device → Option RemoteAccessPayload → Db → Db
unfolding upsert_rustdesk_status
remote_part now device_id device none db = db
remote_part now device_id device (some p) db = upsert_rustdesk_status now device_id device p db

-- the attributes that a check-in assigns, and its row
unfoldable pub record_checkin : ℕ → CheckinRequest → Option String → ℕ → Agent → Device → Db → Db
unfolding address_of seen_device seen_agent checkin_payload
record_checkin now payload client_host agent_id agent device db =
    let ip_address = address_of payload.ip_address client_host in
    record db {
      devices = write payload.device_id (seen_device now payload ip_address device) db.devices;
      agents = write agent_id (seen_agent now payload agent) db.agents;
      checkins =
          db.checkins
          ++ record {
            organization_id = device.organization_id;
            device_id = payload.device_id;
            agent_id = agent_id;
            status = payload.health_status;
            ip_address = ip_address;
            agent_version = payload.agent_version;
            payload = checkin_payload payload;
          }
            ∷ [];
    }

module _ (hash : Text → Text) (settings : AlertSettings) (percent : ℕ → ℕ → Float)
    (round_2 : Float → Float) (float_lt : Float → Float → Bool) (is_zero : Float → Bool) where
  -- the agent of the device, if the secret is its own, and the device, if it is the agent's tenant's
  unfoldable pub authenticate : CheckinRequest → Db → Result (ℕ × Agent)
  authenticate payload db =
      elim (scalar (λ k agent. opt_eq agent.device_id payload.device_id) db.agents) [
        | none ↦ err (unauthorized "Invalid device credentials")
        | some (agent_id, agent) ↦
            if verify_token hash payload.device_secret agent.device_secret_hash
            then ok (agent_id, agent)
            else err (unauthorized "Invalid device credentials")
      ]

  unfoldable pub device_of : ℕ → Agent → Db → Result Device
  device_of device_id agent db = elim (get device_id db.devices) [
    | none ↦ err (unauthorized "Invalid device credentials")
    | some device ↦
        if device.organization_id == agent.organization_id
        then ok device
        else err (unauthorized "Invalid device credentials")
  ]

  -- everything that an accepted check-in does up to its commit
  unfoldable pub accept : ℕ → CheckinRequest → Option String → ℕ → Agent → Device → Db → Db
  unfolding record_checkin inventory_part remote_part evaluate_device_alerts memory_report add_audit
      flush
  accept now payload client_host agent_id agent device db =
      let device' = seen_device now payload (address_of payload.ip_address client_host) device in
      let recorded = record_checkin now payload client_host agent_id agent device db in
      let stored = flush (
        remote_part now payload.device_id device' payload.remote_access
          (inventory_part now payload.device_id device' payload.inventory recorded)) in
      let evaluated =
        evaluate_device_alerts settings percent round_2 float_lt is_zero now payload.device_id
          device' (memory_report (checkin_payload payload)) stored in
      flush (
        add_audit device.organization_id none "agent.checkin" "device" (some payload.device_id)
          (("status", str (codes payload.health_status))
            ∷ ("agent_version", str (codes payload.agent_version))
            ∷ [])
          evaluated)

  unfoldable pub checkin_agent : ℕ → CheckinRequest → Option String → Db → Result (ℕ × Db)
  unfolding authenticate device_of accept
  checkin_agent now payload client_host db = do
    (agent_id, agent) ← authenticate payload db
    device ← device_of payload.device_id agent db
    ok (payload.device_id, accept now payload client_host agent_id agent device db)
