-- ===== src/Models/Job.antt =====
-- Safe predefined jobs, their lifecycle events and results.
use cyclope_central.Base.{ℕ, String, Option}
use cyclope_central.Base.Int.{ℤ}
use cyclope_central.Base.Json.{Dict, Text}

-- The values that the code puts into the column `status`.
pub data JobStatus : Type 0 where
  queued assigned running succeeded failed canceled expired : JobStatus

pub record AgentJob : Type 0 where
  pub organization_id : ℕ
  pub device_id : ℕ
  pub assigned_agent_id : Option ℕ
  pub job_type : String
  pub status : JobStatus
  pub payload : Dict
  pub expires_at : ℕ
  pub created_at : ℕ
  pub started_at : Option ℕ
  pub completed_at : Option ℕ
  pub result_summary : Option Text

pub data JobEventType : Type 0 where
  created assigned started completed failed canceled expired : JobEventType

pub record AgentJobEvent : Type 0 where
  pub organization_id : ℕ
  pub job_id : ℕ
  pub event_type : JobEventType
  pub message : String
  pub metadata_json : Dict

pub record AgentJobResult : Type 0 where
  pub organization_id : ℕ
  pub job_id : ℕ
  pub status : JobStatus
  pub output : Text
  pub error : Option Text
  pub exit_code : Option ℤ
  pub metadata_json : Dict
