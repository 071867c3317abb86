-- ===== src/Jobs/Queue.antt =====
-- The operations on the queue of jobs of backend/app/core/jobs.py: `expire_jobs` and
-- `assign_jobs_for_agent`. Where two jobs have the same `created_at` the database may order them either
-- way; here they keep the order of their rows.
pub mod Expiry
pub mod Order
use cyclope_central.Base.{
  ℕ, Bool, true, false, ◌&&◌, Option, none, some, List, [], ◌∷◌, leb, ◌==◌, opt_eq, if◌then◌else◌,
  take, map,
}
use cyclope_central.Session.{select}
use cyclope_central.Models.Device.{Agent}
use cyclope_central.Models.Job.{JobStatus, AgentJob, JobEventType}
use cyclope_central.Database.{Db, flush}
use cyclope_central.Jobs.Core.{write_job, add_job_event, audit_job, is_terminal}

-- `AgentJob.status.in_(["queued", "assigned", "running"])`
unfoldable pub is_unfinished : JobStatus → Bool
is_unfinished JobStatus.queued = true
is_unfinished JobStatus.assigned = true
is_unfinished JobStatus.running = true
is_unfinished _ = false

abbrev pub is_of_device : Option ℕ → AgentJob → Bool
is_of_device none job = true
is_of_device (some device_id) job = job.device_id == device_id

-- the `where` of the query of `expire_jobs`
unfoldable pub is_overdue : ℕ → Option ℕ → ℕ → AgentJob → Bool
unfolding is_unfinished
is_overdue now device_id job_id job =
    is_unfinished job.status && leb job.expires_at now && is_of_device device_id job

unfoldable pub expired_job : ℕ → AgentJob → AgentJob
expired_job now job = record job { status = JobStatus.expired; completed_at = some now }

-- the body of the loop of `expire_jobs`
unfoldable pub expire_job : ℕ → ℕ → AgentJob → Db → Db
unfolding expired_job write_job add_job_event audit_job
expire_job now job_id job db =
    let job' = expired_job now job in
    let db' =
      add_job_event job_id job' JobEventType.expired "Job expired before completion." []
        (write_job job_id job' db) in
    audit_job job_id job' "job.expired" [] db'

unfoldable pub expire_all : ℕ → List (ℕ × AgentJob) → Db → Db
expire_all now [] db = db
expire_all now ((job_id, job) ∷ rest) db = expire_all now rest (expire_job now job_id job db)

-- `expire_jobs(db, device_id=…)`, with no device for `None`
unfoldable pub expire_jobs : ℕ → Option ℕ → Db → Db
expire_jobs now device_id db = expire_all now (select (is_overdue now device_id) db.jobs) db

-- `order_by(AgentJob.created_at)`
unfoldable pub insert_by_age : ℕ × AgentJob → List (ℕ × AgentJob) → List (ℕ × AgentJob)
insert_by_age e [] = e ∷ []
insert_by_age e (f ∷ rest) =
    let later = insert_by_age e rest in
    if leb e.1.created_at f.1.created_at then e ∷ f ∷ rest else f ∷ later

unfoldable pub order_by_age : List (ℕ × AgentJob) → List (ℕ × AgentJob)
unfolding insert_by_age
order_by_age [] = []
order_by_age (e ∷ rest) = insert_by_age e (order_by_age rest)

unfoldable pub is_queued : JobStatus → Bool
is_queued JobStatus.queued = true
is_queued _ = false

-- the `where` of the query of `assign_jobs_for_agent`
unfoldable pub is_waiting : Agent → ℕ → AgentJob → Bool
unfolding is_queued
is_waiting agent job_id job = opt_eq agent.device_id job.device_id && is_queued job.status

unfoldable pub waiting_jobs : Agent → Db → List (ℕ × AgentJob)
unfolding order_by_age
waiting_jobs agent db = take 5 (order_by_age (select (is_waiting agent) db.jobs))

unfoldable pub assigned_job : ℕ → AgentJob → AgentJob
assigned_job agent_id job = record job {
  status = JobStatus.assigned;
  assigned_agent_id = some agent_id;
}

-- the body of the loop of `assign_jobs_for_agent`
unfoldable pub assign_job : ℕ → ℕ → AgentJob → Db → Db
unfolding assigned_job write_job add_job_event audit_job
assign_job agent_id job_id job db =
    let job' = assigned_job agent_id job in
    let db' =
      add_job_event job_id job' JobEventType.assigned "Job assigned to polling agent." []
        (write_job job_id job' db) in
    audit_job job_id job' "job.assigned" [] db'

unfoldable pub assign_all : ℕ → List (ℕ × AgentJob) → Db → Db
assign_all agent_id [] db = db
assign_all agent_id ((job_id, job) ∷ rest) db =
    assign_all agent_id rest (assign_job agent_id job_id job db)

unfoldable pub handed_out : ℕ → List (ℕ × AgentJob) → List (ℕ × AgentJob)
handed_out agent_id [] = []
handed_out agent_id ((job_id, job) ∷ rest) =
    (job_id, assigned_job agent_id job) ∷ handed_out agent_id rest

-- `assign_jobs_for_agent`: the jobs handed out, as the loop leaves them, and the session. Nothing
-- flushes what `expire_jobs` wrote before the query of the waiting jobs.
unfoldable pub assign_jobs_for_agent : ℕ → ℕ → Agent → Db → List (ℕ × AgentJob) × Db
unfolding expire_jobs waiting_jobs handed_out assign_all flush
assign_jobs_for_agent now agent_id agent db =
    let swept = expire_jobs now agent.device_id db in
    let jobs = waiting_jobs agent swept in
    (handed_out agent_id jobs, flush (assign_all agent_id jobs swept))
