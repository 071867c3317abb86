-- ===== src/Jobs/Core.antt =====
-- The operations on one job of backend/app/core/jobs.py. A job is handed over with its primary key;
-- `now` is what the calls of `now_utc()` within one operation return.
pub mod Transitions
use cyclope_central.Base.{
  ℕ, ◌+◌, ◌*◌, String, str_append, Bool, true, false, not, ◌&&◌, ◌||◌, Option, none, some, [], ◌∷◌,
  ◌++◌, is_some, opt_eq, if◌then◌else◌, take, ◌==◌,
}
use cyclope_central.Base.Int.{ℤ}
use cyclope_central.Base.Json.{Text, JsonValue, null, int, str, Dict, codes}
use cyclope_central.Http.{Result, ok, err, ◌>>=◌, ◌>>◌, raise_if, forbidden, conflict}
use cyclope_central.Session.{write, add}
use cyclope_central.Models.Device.{Device, Agent}
use cyclope_central.Models.Job
use cyclope_central.Models.Job.{
  JobStatus, AgentJob, JobEventType, AgentJobEvent, AgentJobResult, completed,
}
use cyclope_central.Database.{Db, flush, add_audit}
use cyclope_central.Jobs.Payload.{validate_job_payload}

-- `job.status` as a text
unfoldable pub status_name : JobStatus → String
status_name JobStatus.queued = "queued"
status_name JobStatus.assigned = "assigned"
status_name JobStatus.running = "running"
status_name JobStatus.succeeded = "succeeded"
status_name JobStatus.failed = "failed"
status_name JobStatus.canceled = "canceled"
status_name JobStatus.expired = "expired"

-- `status in TERMINAL_JOB_STATUSES`
unfoldable pub is_terminal : JobStatus → Bool
is_terminal JobStatus.queued = false
is_terminal JobStatus.assigned = false
is_terminal JobStatus.running = false
is_terminal _ = true

unfoldable pub add_job_event : ℕ → AgentJob → JobEventType → String → Dict → Db → Db
add_job_event job_id job event_type message metadata db = record db {
  job_events =
      db.job_events
      ++ record {
        organization_id = job.organization_id;
        job_id = job_id;
        event_type = event_type;
        message = message;
        metadata_json = metadata;
      }
        ∷ [];
}

-- `audit` as the functions of this module call it: no actor, the job as the target
unfoldable pub audit_job : ℕ → AgentJob → String → Dict → Db → Db
unfolding add_audit
audit_job job_id job action metadata db =
    add_audit job.organization_id none action "agent_job" (some job_id) metadata db

unfoldable pub write_job : ℕ → AgentJob → Db → Db
write_job job_id job db = record db { jobs = write job_id job db.jobs }

-- The job in the state that it is created with; `timeout_minutes` is
-- `settings.agent_job_timeout_minutes`.
unfoldable pub new_job : ℕ → ℕ → ℕ → Device → String → Dict → AgentJob
new_job timeout_minutes now device_id device job_type payload = record {
  organization_id = device.organization_id;
  device_id = device_id;
  assigned_agent_id = none;
  job_type = job_type;
  status = JobStatus.queued;
  payload = payload;
  expires_at = now + timeout_minutes * 60000000;
  created_at = now;
  started_at = none;
  completed_at = none;
  result_summary = none;
}

insert_job : AgentJob → Db → Db
insert_job job db = record db { next_id = db.next_id + 1; jobs = add db.next_id job db.jobs }

-- `create_job`: the new job's key and the session after it
unfoldable pub create_job :
    (Text → Option ℤ) → ℕ → ℕ → ℕ → Device → String → Option Dict → Db → Result (ℕ × Db)
unfolding new_job insert_job flush add_job_event audit_job
create_job parse timeout_minutes now device_id device job_type payload db = do
  safe ← validate_job_payload parse job_type payload
  let job = new_job timeout_minutes now device_id device job_type safe
  let job_id = db.next_id
  let message = str_append "Queued safe job " (str_append job_type ".")
  let queued = add_job_event job_id job JobEventType.created message [] (flush (insert_job job db))
  ok (job_id, audit_job job_id job "job.created" (("job_type", str (codes job_type)) ∷ []) queued)

-- Whether `require_agent_job` lets the agent work on the job.
unfoldable pub may_work : AgentJob → ℕ → Agent → Bool
may_work job agent_id agent =
    opt_eq agent.device_id job.device_id
    && (not (is_some job.assigned_agent_id) || opt_eq job.assigned_agent_id agent_id)

unfoldable pub require_agent_job : AgentJob → ℕ → Agent → Result (Unit {0})
unfolding may_work
require_agent_job job agent_id agent =
    raise_if (not (may_work job agent_id agent)) (forbidden "Job not assigned to agent")

-- `job.status in {"assigned", "queued"}`
unfoldable pub can_start : JobStatus → Bool
can_start JobStatus.assigned = true
can_start JobStatus.queued = true
can_start _ = false

unfoldable pub is_running : JobStatus → Bool
is_running JobStatus.running = true
is_running _ = false

unfoldable pub started_job : ℕ → ℕ → AgentJob → AgentJob
started_job now agent_id job = record job {
  status = JobStatus.running;
  assigned_agent_id = some agent_id;
  started_at = some now;
}

-- the session once `start_job` has let the agent start the job
unfoldable pub after_start : ℕ → ℕ → AgentJob → ℕ → Db → Db
unfolding started_job write_job add_job_event audit_job
after_start now job_id job agent_id db =
    let job' = started_job now agent_id job in
    let db' =
      add_job_event job_id job' JobEventType.started "Agent started job." []
        (write_job job_id job' db) in
    audit_job job_id job' "job.started" [] db'

unfoldable pub start_job : ℕ → ℕ → AgentJob → ℕ → Agent → Db → Result Db
unfolding require_agent_job can_start after_start
start_job now job_id job agent_id agent db = do
  require_agent_job job agent_id agent
  raise_if (not (can_start job.status)) (conflict "Job cannot be started")
  ok (after_start now job_id job agent_id db)

-- The keyword arguments of `complete_job`.
pub record Completion : Type 0 where
  pub succeeded : Bool
  pub output : Text
  pub error : Option Text
  pub exit_code : Option ℤ
  pub metadata : Dict

-- `a or b` on texts
text_or : Text → Text → Text
text_or [] b = b
text_or (c ∷ a) b = c ∷ a

-- `error or ""`: whether there is an error text is all that is asked of it
error_text : Option Text → Text
error_text none = []
error_text (some t) = t

-- `error[:20000] if error else None`
kept_error : Option Text → Option Text
kept_error none = none
kept_error (some []) = none
kept_error (some (c ∷ t)) = some (take 20000 (c ∷ t))

unfoldable pub final_status : Completion → JobStatus
final_status c = if c.succeeded then JobStatus.succeeded else JobStatus.failed

unfoldable pub completed_job : ℕ → Completion → AgentJob → AgentJob
unfolding final_status text_or error_text status_name
completed_job now c job = record job {
  status = final_status c;
  completed_at = some now;
  result_summary = some (
      take 512
        (text_or c.output (text_or (error_text c.error) (codes (status_name (final_status c))))));
}

unfoldable pub job_result : ℕ → AgentJob → Completion → AgentJobResult
unfolding kept_error
job_result job_id job c = record {
  organization_id = job.organization_id;
  job_id = job_id;
  status = job.status;
  output = take 20000 c.output;
  error = kept_error c.error;
  exit_code = c.exit_code;
  metadata_json = c.metadata;
}

add_result : AgentJobResult → Db → Db
add_result result db = record db { job_results = db.job_results ++ result ∷ [] }

exit_code_json : Option ℤ → JsonValue
exit_code_json none = null
exit_code_json (some z) = int z

-- the session once `complete_job` has let the agent complete the job
unfoldable pub after_complete : ℕ → ℕ → AgentJob → Completion → Db → Db
unfolding completed_job job_result add_result write_job add_job_event audit_job exit_code_json
after_complete now job_id job c db =
    let job' = completed_job now c job in
    let stored = add_result (job_result job_id job' c) (write_job job_id job' db) in
    let event_type = if c.succeeded then JobEventType.completed else JobEventType.failed in
    let message = str_append "Job " (str_append (status_name job'.status) ".") in
    let noted =
      add_job_event job_id job' event_type message (("exit_code", exit_code_json c.exit_code) ∷ [])
        stored in
    let action = if c.succeeded then "job.completed" else "job.failed" in
    audit_job job_id job' action [] noted

unfoldable pub complete_job : ℕ → ℕ → AgentJob → ℕ → Agent → Completion → Db → Result Db
unfolding require_agent_job is_running after_complete
complete_job now job_id job agent_id agent c db = do
  require_agent_job job agent_id agent
  raise_if (not (is_running job.status)) (conflict "Job is not running")
  ok (after_complete now job_id job c db)

unfoldable pub canceled_job : ℕ → AgentJob → AgentJob
canceled_job now job = record job { status = JobStatus.canceled; completed_at = some now }

unfoldable pub after_cancel : ℕ → ℕ → AgentJob → Db → Db
unfolding canceled_job write_job add_job_event audit_job
after_cancel now job_id job db =
    let job' = canceled_job now job in
    let noted =
      add_job_event job_id job' JobEventType.canceled "Job canceled by operator." []
        (write_job job_id job' db) in
    audit_job job_id job' "job.canceled" [] noted

unfoldable pub cancel_job : ℕ → ℕ → AgentJob → Db → Db
unfolding is_terminal after_cancel
cancel_job now job_id job db = if is_terminal job.status then db else after_cancel now job_id job db
