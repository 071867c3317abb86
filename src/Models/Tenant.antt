-- ===== src/Models/Tenant.antt =====
-- Organizations, dashboard users, their refresh tokens, and the audit log.
use cyclope_central.Base.{ℕ, String, Bool, Option}
use cyclope_central.Base.Json.{Dict, Text}

pub record Organization : Type 0 where
  pub name : Text
  pub slug : Text

pub record User : Type 0 where
  pub organization_id : ℕ
  pub email : Text
  pub hashed_password : Text
  pub role : String
  pub is_active : Bool

pub record RefreshToken : Type 0 where
  pub organization_id : ℕ
  pub user_id : ℕ
  pub token_hash : Text
  pub expires_at : ℕ
  pub revoked_at : Option ℕ

-- `target` is `target_id`, the text of a primary key.
pub record AuditLog : Type 0 where
  pub organization_id : ℕ
  pub actor_user_id : Option ℕ
  pub action : String
  pub target_type : String
  pub target : Option ℕ
  pub metadata_json : Dict
