-- ===== src/Models/Remote.antt =====
-- The RustDesk providers, the links from devices to them, and the audit of remote sessions.
use cyclope_central.Base.{ℕ, String, Bool, Option}
use cyclope_central.Base.Json.{Dict}

pub record RemoteProviderConfig : Type 0 where
  pub organization_id : ℕ
  pub provider_type : String
  pub name : String
  pub host : String
  pub relay_host : Option String
  pub public_key : Option String
  pub enabled : Bool
  pub created_at : ℕ

pub record RemoteDeviceLink : Type 0 where
  pub organization_id : ℕ
  pub device_id : ℕ
  pub provider_config_id : Option ℕ
  pub provider_type : String
  pub rustdesk_id : Option String
  pub installed : Bool
  pub last_status : String
  pub last_reported_at : Option ℕ

pub record RemoteSessionAudit : Type 0 where
  pub organization_id : ℕ
  pub device_id : ℕ
  pub provider_config_id : Option ℕ
  pub actor_user_id : Option ℕ
  pub provider_type : String
  pub action : String
  pub launch_url : String
  pub metadata_json : Dict
  pub created_at : ℕ
