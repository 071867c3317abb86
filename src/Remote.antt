-- ===== src/Remote.antt =====
-- The RustDesk handlers of backend/app/api/remote.py. What an agent reports about RustDesk is stored in
-- Agents/RustDesk.
pub mod Launches
use cyclope_central.Base.{
  ℕ, ◌+◌, String, str_append, Bool, true, false, not, ◌&&◌, ◌||◌, Option, none, some, List, [], ◌∷◌,
  ◌++◌, ◌==◌, leb, if◌then◌else◌, or_else,
}
use cyclope_central.Base.Json.{Dict, str, codes}
use cyclope_central.Http.{Result, ok, err, ◌>>=◌, ◌>>◌, raise_if, not_found}
use cyclope_central.Session.{get, scalar, select, add}
use cyclope_central.Session.Query.{order_by}
use cyclope_central.Models.Tenant.{User}
use cyclope_central.Models.Device.{Device}
use cyclope_central.Models.Remote.{RemoteProviderConfig, RemoteDeviceLink, RemoteSessionAudit}
use cyclope_central.Database.{Db, flush, add_audit}
use cyclope_central.Auth.Roles.{require_permission}
use cyclope_central.Alerts.Evaluation.{has_text}
use cyclope_central.Agents.RustDesk.{rustdesk, default_provider, is_link}
use cyclope_central.Jobs.Api.{owned_device}

pub record ProviderRequest : Type 0 where
  pub provider_type : String
  pub name : String
  pub host : String
  pub relay_host : Option String
  pub public_key : Option String
  pub enabled : Bool

unfoldable pub new_provider : ℕ → ℕ → ProviderRequest → RemoteProviderConfig
new_provider now organization_id payload = record {
  organization_id = organization_id;
  provider_type = payload.provider_type;
  name = payload.name;
  host = payload.host;
  relay_host = payload.relay_host;
  public_key = payload.public_key;
  enabled = payload.enabled;
  created_at = now;
}

unfoldable pub list_remote_providers : User → Db → Result (List (ℕ × RemoteProviderConfig))
list_remote_providers current db = do
  require_permission "remote:read" current
  ok (
      order_by (λ a b. leb a.1.created_at b.1.created_at)
        (select (λ k p. p.organization_id == current.organization_id) db.providers))

unfoldable pub create_remote_provider :
    ℕ → ProviderRequest → ℕ → User → Db → Result ((ℕ × RemoteProviderConfig) × Db)
unfolding new_provider add_audit flush
create_remote_provider now payload current_id current db = do
  require_permission "remote:manage" current
  let provider = new_provider now current.organization_id payload
  let added = record db {
    next_id = db.next_id + 1;
    providers = add db.next_id provider db.providers;
  }
  ok (
    (db.next_id, provider),
    flush (
        add_audit current.organization_id (some current_id) "remote.provider.created"
          "remote_provider" none
          (("provider_type", str (codes payload.provider_type))
            ∷ ("host", str (codes payload.host))
            ∷ [])
          added),
  )

unfoldable pub link_of : ℕ → ℕ → Db → Option (ℕ × RemoteDeviceLink)
unfolding is_link
link_of organization_id device_id db = scalar (is_link organization_id device_id) db.links

-- The link of a device and the provider that goes with it.
pub record RemoteLinkResponse : Type 0 where
  pub link : Option (ℕ × RemoteDeviceLink)
  pub provider : Option (ℕ × RemoteProviderConfig)

unfoldable pub named_provider : Option ℕ → Db → Option (ℕ × RemoteProviderConfig)
named_provider none db = none
named_provider (some k) db = elim (get k db.providers) [ none ↦ none | some p ↦ some (k, p) ]

unfoldable pub provider_key_of : Option (ℕ × RemoteDeviceLink) → Option ℕ
provider_key_of none = none
provider_key_of (some (k, link)) = link.provider_config_id

-- the provider that the link names, or the default where it names none or one that is gone
unfoldable pub provider_for :
    Option (ℕ × RemoteDeviceLink) → ℕ → Db → Option (ℕ × RemoteProviderConfig)
unfolding provider_key_of named_provider
provider_for link organization_id db = elim (named_provider (provider_key_of link) db) [
  | none ↦ default_provider organization_id db
  | some provider ↦ some provider
]

unfoldable pub get_device_remote : ℕ → User → Db → Result RemoteLinkResponse
unfolding provider_for
get_device_remote device_id current db = do
  require_permission "remote:read" current
  device ← owned_device "Device not found" device_id current.organization_id db
  let link = link_of current.organization_id device_id db
  ok (record { link = link; provider = provider_for link current.organization_id db })

pub record LaunchResponse : Type 0 where
  pub launch_url : String
  pub rustdesk_id : String

-- the RustDesk id of a link that can be launched
unfoldable pub launchable : Option (ℕ × RemoteDeviceLink) → Option String
unfolding has_text
launchable none = none
launchable (some (k, link)) =
    if link.installed && has_text link.rustdesk_id then link.rustdesk_id else none

unfoldable pub key_in {ℓ} : {A : Type ℓ} → Option (ℕ × A) → Option ℕ
key_in none = none
key_in (some (k, a)) = some k

unfoldable pub session_audit : ℕ → ℕ → ℕ → ℕ → Option ℕ → Device → String → RemoteSessionAudit
session_audit now organization_id device_id actor_id provider_id device rustdesk_id = record {
  organization_id = organization_id;
  device_id = device_id;
  provider_config_id = provider_id;
  actor_user_id = some actor_id;
  provider_type = rustdesk;
  action = "remote.launch";
  launch_url = str_append "rustdesk://" rustdesk_id;
  metadata_json =
      ("hostname", str (codes device.hostname))
      ∷ ("provider_type", str (codes rustdesk))
      ∷ ("rustdesk_id", str (codes rustdesk_id))
      ∷ [];
  created_at = now;
}

unfoldable pub launch : ℕ → ℕ → ℕ → User → Device → Option ℕ → String → Db → LaunchResponse × Db
unfolding session_audit add_audit flush
launch now device_id current_id current device provider_id rustdesk_id db =
    let audit =
      session_audit now current.organization_id device_id current_id provider_id device
        rustdesk_id in
    (
      record { launch_url = audit.launch_url; rustdesk_id = rustdesk_id },
      flush (
          add_audit current.organization_id (some current_id) "remote.launch" "device"
            (some device_id)
            (("provider_type", str (codes rustdesk))
              ∷ ("rustdesk_id", str (codes rustdesk_id))
              ∷ [])
            (record db { remote_audits = db.remote_audits ++ audit ∷ [] })),
    )

unfoldable pub launch_device_remote : ℕ → ℕ → ℕ → User → Db → Result (LaunchResponse × Db)
unfolding launchable named_provider provider_key_of key_in launch
launch_device_remote now device_id current_id current db = do
  require_permission "remote:launch" current
  device ← owned_device "Device not found" device_id current.organization_id db
  let link = link_of current.organization_id device_id db
  elim (launchable link) [
    | none ↦ err (not_found "RustDesk device link not available")
    | some rustdesk_id ↦ ok (
        launch now device_id current_id current device
          (key_in (named_provider (provider_key_of link) db)) rustdesk_id db)
  ]

-- the audits of one device
unfoldable pub audits_of : ℕ → ℕ → List RemoteSessionAudit → List RemoteSessionAudit
audits_of organization_id device_id [] = []
audits_of organization_id device_id (a ∷ rest) =
    let later = audits_of organization_id device_id rest in
    if (a.organization_id == organization_id) && (a.device_id == device_id)
    then a ∷ later
    else later

-- An audit is shown as its row.
unfoldable pub list_device_remote_audit : ℕ → User → Db → Result (List RemoteSessionAudit)
unfolding audits_of
list_device_remote_audit device_id current db = do
  require_permission "remote:read" current
  device ← owned_device "Device not found" device_id current.organization_id db
  ok (
      order_by (λ a b. leb b.created_at a.created_at)
        (audits_of current.organization_id device_id db.remote_audits))
