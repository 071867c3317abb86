-- ===== src/Jobs/Lifecycle.antt =====
-- The job lifecycle as a whole: the states of a job that make sense, the committed requests as a step
-- relation, and the invariant.
pub mod Reachable
pub mod Sound
use cyclope_central.Base.{
  ℕ, String, ◌≡◌, refl, Bool, true, false, not, ◌&&◌, ◌||◌, Option, none, some, List, [], ◌∷◌,
  arith, is_some, if◌then◌else◌, All, Bool-cases, inl, inr,
}
use cyclope_central.Base.Int.{ℤ}
use cyclope_central.Base.Json.{Text, Dict}
use cyclope_central.Http.{Result, ok, err, >>=-eq-ok}
use cyclope_central.Session.{get, select, write, flush as flush_table, IsClean}
use cyclope_central.Session.Laws.{flush-IsClean, All-select}
use cyclope_central.Session.Rows.{
  AllRows, AllRows-write, AllRows-flush, AllRows-add, AllRows-get, AllRows-select,
}
use cyclope_central.Models.Device.{Device, Agent}
use cyclope_central.Models.Job.{JobStatus, AgentJob}
use cyclope_central.Database.{Db, flush}
use cyclope_central.Jobs.Payload.{validate_job_payload}
use cyclope_central.Jobs.Core.{
  Completion, is_terminal, new_job, started_job, completed_job, canceled_job, create_job, start_job,
  complete_job, cancel_job, can_start, is_running, may_work, after_start, after_complete,
  after_cancel, final_status,
}
use cyclope_central.Jobs.Queue.{expire_jobs, expire_all, expire_job, expired_job}

-- the statuses of a job that an agent has begun to work on, and of one that an agent has
unfoldable pub is_begun : JobStatus → Bool
is_begun JobStatus.running = true
is_begun JobStatus.succeeded = true
is_begun JobStatus.failed = true
is_begun _ = false

unfoldable pub is_held : JobStatus → Bool
is_held JobStatus.assigned = true
is_held JobStatus.running = true
is_held _ = false

-- A job has a completion time exactly if its status is terminal, a start time once it is begun, and an
-- agent while it is held.
pub record IsConsistent (job : AgentJob) : Type 0 where
  pub closed : is_some job.completed_at ≡ is_terminal job.status
  pub begun : (is_begun job.status && not (is_some job.started_at)) ≡ false
  pub held : (is_held job.status && not (is_some job.assigned_agent_id)) ≡ false

new_job-IsConsistent :
    (timeout now device_id : ℕ) (device : Device) (job_type : String) (payload : Dict)
    → IsConsistent (new_job timeout now device_id device job_type payload)
unfolding new_job is_terminal is_begun is_held
new_job-IsConsistent timeout now device_id device job_type payload = ground arith

module _ (now : ℕ) (job : AgentJob) where
  started-IsConsistent :
      (agent_id : ℕ)
      → can_start job.status ≡ true
      → IsConsistent job
      → IsConsistent (started_job now agent_id job)
  unfolding started_job can_start is_terminal is_begun is_held
  started-IsConsistent agent_id c h = ground arith

  completed-IsConsistent :
      (c : Completion)
      → is_running job.status ≡ true
      → IsConsistent job
      → IsConsistent (completed_job now c job)
  unfolding completed_job is_running is_terminal is_begun is_held
  completed-IsConsistent c r h = ground arith

  canceled-IsConsistent : IsConsistent job → IsConsistent (canceled_job now job)
  unfolding canceled_job is_terminal is_begun is_held
  canceled-IsConsistent h = ground arith

  expired-IsConsistent : IsConsistent (expired_job now job)
  unfolding expired_job is_terminal is_begun is_held
  expired-IsConsistent = ground arith
