-- ===== src/Models/Platform.antt =====
-- The rows of backend/app/models/phase3.py that the handlers write or read, and the record of their
-- tables. Columns that no handler sets are left out.
use cyclope_central.Base.{ℕ, String, Bool, Option, List, []}
use cyclope_central.Base.Json.{Dict, Text}
use cyclope_central.Session
use cyclope_central.Session.{Table}

pub record DashboardPreference : Type 0 where
  pub organization_id : ℕ
  pub user_id : ℕ
  pub layout : Dict
  pub role_widgets : List String

pub record PortalRole : Type 0 where
  pub organization_id : ℕ
  pub name : String
  pub permissions : List String

pub record PortalUser : Type 0 where
  pub organization_id : ℕ
  pub portal_role_id : Option ℕ
  pub email : Text
  pub display_name : String
  pub hashed_password : Text
  pub is_active : Bool

pub record PortalSession : Type 0 where
  pub organization_id : ℕ
  pub portal_user_id : ℕ
  pub token_hash : Text
  pub expires_at : ℕ
  pub created_at : ℕ

pub record Workflow : Type 0 where
  pub organization_id : ℕ
  pub name : String
  pub enabled : Bool

pub record WorkflowTrigger : Type 0 where
  pub organization_id : ℕ
  pub workflow_id : ℕ
  pub trigger_type : String
  pub config : Dict

pub record WorkflowAction : Type 0 where
  pub organization_id : ℕ
  pub workflow_id : ℕ
  pub action_type : String
  pub config : Dict

pub record WorkflowExecution : Type 0 where
  pub organization_id : ℕ
  pub workflow_id : ℕ
  pub status : String
  pub trigger_payload : Dict

pub record ApiKey : Type 0 where
  pub organization_id : ℕ
  pub name : String
  pub key_hash : Text
  pub prefix : Text
  pub scopes : List String
  pub last_used_at : Option ℕ
  pub revoked_at : Option ℕ
  pub created_at : ℕ

pub record SystemHealth : Type 0 where
  pub organization_id : Option ℕ
  pub component : String
  pub status : String
  pub details : Dict
  pub checked_at : ℕ

pub record BackupJob : Type 0 where
  pub organization_id : Option ℕ
  pub name : String
  pub schedule : String
  pub enabled : Bool
  pub target : String

pub record BackupRun : Type 0 where
  pub organization_id : Option ℕ
  pub job_id : Option ℕ
  pub status : String
  pub validation_status : Option String
  pub notes : Option String

pub record Platform : Type 0 where
  pub preferences : Table DashboardPreference
  pub portal_roles : Table PortalRole
  pub portal_users : Table PortalUser
  pub portal_sessions : Table PortalSession
  pub workflows : Table Workflow
  pub triggers : Table WorkflowTrigger
  pub actions : Table WorkflowAction
  pub executions : Table WorkflowExecution
  pub api_keys : Table ApiKey
  pub health : Table SystemHealth
  pub backup_jobs : Table BackupJob
  pub backup_runs : Table BackupRun

unfoldable pub flush_platform : Platform → Platform
flush_platform p = record p {
  preferences = Session.flush p.preferences;
  portal_roles = Session.flush p.portal_roles;
  portal_users = Session.flush p.portal_users;
  portal_sessions = Session.flush p.portal_sessions;
  workflows = Session.flush p.workflows;
  triggers = Session.flush p.triggers;
  actions = Session.flush p.actions;
  executions = Session.flush p.executions;
  api_keys = Session.flush p.api_keys;
  health = Session.flush p.health;
  backup_jobs = Session.flush p.backup_jobs;
  backup_runs = Session.flush p.backup_runs;
}

abbrev pub no_platform : Platform
no_platform = record {
  preferences = [];
  portal_roles = [];
  portal_users = [];
  portal_sessions = [];
  workflows = [];
  triggers = [];
  actions = [];
  executions = [];
  api_keys = [];
  health = [];
  backup_jobs = [];
  backup_runs = [];
}
