-- ===== src/Agents/RustDesk.antt =====
-- `upsert_rustdesk_status` of backend/app/api/remote.py: what an agent reports about RustDesk.
use cyclope_central.Base.{
  ℕ, ◌+◌, String, Bool, false, not, ◌&&◌, Option, none, some, List, [], ◌∷◌, ◌==◌, str_eq, leb,
  if◌then◌else◌,
}
use cyclope_central.Session.{scalar, select, add, write}
use cyclope_central.Models.Device.{Device}
use cyclope_central.Models.Remote.{RemoteProviderConfig, RemoteDeviceLink}
use cyclope_central.Database.{Db}

abbrev pub rustdesk : String
rustdesk = "rustdesk_oss"

pub record RemoteAccessPayload : Type 0 where
  pub provider_type : String
  pub installed : Bool
  pub device_id : Option String
  pub status : String

-- the enabled RustDesk provider of an organization that was created first
unfoldable pub is_default : ℕ → ℕ → RemoteProviderConfig → Bool
is_default organization_id k p =
    (p.organization_id == organization_id) && str_eq p.provider_type rustdesk && p.enabled

unfoldable pub older :
    ℕ × RemoteProviderConfig → Option (ℕ × RemoteProviderConfig) → Option (ℕ × RemoteProviderConfig)
older p none = some p
older p (some q) = if leb p.1.created_at q.1.created_at then some p else some q

unfoldable pub oldest : List (ℕ × RemoteProviderConfig) → Option (ℕ × RemoteProviderConfig)
unfolding older
oldest [] = none
oldest (p ∷ rest) = older p (oldest rest)

unfoldable pub default_provider : ℕ → Db → Option (ℕ × RemoteProviderConfig)
unfolding is_default oldest
default_provider organization_id db = oldest (select (is_default organization_id) db.providers)

unfoldable pub is_link : ℕ → ℕ → ℕ → RemoteDeviceLink → Bool
is_link organization_id device_id k l =
    (l.organization_id == organization_id)
    && (l.device_id == device_id)
    && str_eq l.provider_type rustdesk

unfoldable pub new_link : ℕ → ℕ → RemoteDeviceLink
new_link organization_id device_id = record {
  organization_id = organization_id;
  device_id = device_id;
  provider_config_id = none;
  provider_type = rustdesk;
  rustdesk_id = none;
  installed = false;
  last_status = "unknown";
  last_reported_at = none;
}

unfoldable pub provider_key : Option (ℕ × RemoteProviderConfig) → Option ℕ → Option ℕ
provider_key none old = old
provider_key (some (k, p)) old = some k

unfoldable pub reported_link :
    ℕ
    → RemoteAccessPayload
    → Option (ℕ × RemoteProviderConfig)
    → RemoteDeviceLink
    → RemoteDeviceLink
unfolding provider_key
reported_link now payload provider link = record link {
  provider_config_id = provider_key provider link.provider_config_id;
  installed = payload.installed;
  rustdesk_id = payload.device_id;
  last_status = payload.status;
  last_reported_at = some now;
}

unfoldable pub store_link :
    ℕ
    → RemoteAccessPayload
    → Option (ℕ × RemoteProviderConfig)
    → ℕ
    → ℕ
    → Option (ℕ × RemoteDeviceLink)
    → Db
    → Db
unfolding new_link reported_link
store_link now payload provider organization_id device_id none db = record db {
  next_id = db.next_id + 1;
  links =
      add db.next_id (reported_link now payload provider (new_link organization_id device_id))
        db.links;
}
store_link now payload provider organization_id device_id (some (k, link)) db = record db {
  links = write k (reported_link now payload provider link) db.links;
}

unfoldable pub upsert_rustdesk_status : ℕ → ℕ → Device → RemoteAccessPayload → Db → Db
unfolding default_provider is_link store_link
upsert_rustdesk_status now device_id device payload db =
    let org = device.organization_id in
    let stored =
      store_link now payload (default_provider org db) org device_id
        (scalar (is_link org device_id) db.links) db in
    if not (str_eq payload.provider_type rustdesk) then db else stored
