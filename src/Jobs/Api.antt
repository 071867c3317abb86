-- ===== src/Jobs/Api.antt =====
-- The handlers about jobs: backend/app/api/jobs.py, for operators, and the job endpoints of
-- backend/app/api/agent.py, for agents. A handler returns its response and the session after its last
-- commit. The user that the handler's dependency lets through is `current`, with its key.
pub mod Tenants
use cyclope_central.Base.{
  ℕ, String, Bool, true, false, not, ◌&&◌, Option, none, some, List, [], ◌∷◌, ◌==◌, ltb, opt_eq,
  if◌then◌else◌, length, map, or_else,
}
use mathlib.Core.List.{reverse}
use cyclope_central.Base.Int.{ℤ}
use cyclope_central.Base.Json.{Text, Dict}
use cyclope_central.Http.{
  Result, ok, err, ◌>>=◌, ◌>>◌, raise_if, not_found, unauthorized, value_error,
}
use cyclope_central.Session.{get, select, scalar}
use cyclope_central.Session.Owned.{owned}
use cyclope_central.Models.Tenant.{User}
use cyclope_central.Models.Device.{Device, Agent}
use cyclope_central.Models.Job.{AgentJob, AgentJobEvent, AgentJobResult}
use cyclope_central.Database.{Db, flush}
use cyclope_central.Auth.Roles.{require_permission}
use cyclope_central.Auth.Tokens.{verify_token}
use cyclope_central.Jobs.Core.{Completion, create_job, start_job, complete_job, cancel_job}
use cyclope_central.Jobs.Queue.{expire_jobs, order_by_age, assign_jobs_for_agent}

pub record JobResponse : Type 0 where
  pub id : ℕ
  pub job : Option AgentJob
  pub result : Option AgentJobResult
  pub events : List AgentJobEvent

first_result : ℕ → List AgentJobResult → Option AgentJobResult
first_result job_id [] = none
first_result job_id (r ∷ rest) = if r.job_id == job_id then some r else first_result job_id rest

events_of : ℕ → List AgentJobEvent → List AgentJobEvent
events_of job_id [] = []
events_of job_id (e ∷ rest) =
    let later = events_of job_id rest in if e.job_id == job_id then e ∷ later else later

-- `job_response`, on the job's attributes as the session has them
unfoldable pub job_response : Bool → Db → ℕ → JobResponse
unfolding first_result events_of
job_response include_events db job_id = record {
  id = job_id;
  job = get job_id db.jobs;
  result = first_result job_id db.job_results;
  events = if include_events then events_of job_id db.job_events else [];
}

-- a row of the caller's organization, or 404
unfoldable pub owned_device : String → ℕ → ℕ → Db → Result Device
unfolding owned
owned_device detail device_id organization_id db =
    owned (λ row. row.organization_id) detail organization_id (get device_id db.devices)

unfoldable pub owned_job : ℕ → ℕ → Db → Result AgentJob
unfolding owned
owned_job job_id organization_id db =
    owned (λ row. row.organization_id) "Job not found" organization_id (get job_id db.jobs)

module _ (parse : Text → Option ℤ) (timeout_minutes : ℕ) where
  unfoldable pub create_device_job : ℕ → ℕ → String → Dict → User → Db → Result (JobResponse × Db)
  create_device_job now device_id job_type payload current db = do
    require_permission "jobs:create" current
    device ← owned_device "Device not found" device_id current.organization_id db
    (job_id, created) ←
        create_job parse timeout_minutes now device_id device job_type (some payload) db
    let committed = flush created
    ok (job_response true committed job_id, committed)

unfoldable pub keys_of : List (ℕ × AgentJob) → List ℕ
keys_of [] = []
keys_of ((k, job) ∷ rest) = k ∷ keys_of rest

unfoldable pub list_device_jobs : ℕ → ℕ → User → Db → Result (List JobResponse × Db)
unfolding keys_of
list_device_jobs now device_id current db = do
  require_permission "jobs:read" current
  owned ← owned_device "Device not found" device_id current.organization_id db
  let committed = flush (expire_jobs now (some device_id) db)
  let jobs =
      select
        (λ k job. (job.device_id == device_id) && (job.organization_id == current.organization_id))
        committed.jobs
  ok (map (job_response false committed) (reverse (keys_of (order_by_age jobs))), committed)

unfoldable pub get_job : ℕ → ℕ → User → Db → Result (JobResponse × Db)
get_job now job_id current db = do
  require_permission "jobs:read" current
  job ← owned_job job_id current.organization_id db
  let committed = flush (expire_jobs now (some job.device_id) db)
  ok (job_response true committed job_id, committed)

unfoldable pub cancel_agent_job : ℕ → ℕ → User → Db → Result (JobResponse × Db)
cancel_agent_job now job_id current db = do
  require_permission "jobs:cancel" current
  job ← owned_job job_id current.organization_id db
  let committed = flush (cancel_job now job_id job db)
  ok (job_response true committed job_id, committed)

-- The credentials that an agent sends with a request about jobs.
pub record PollRequest : Type 0 where
  pub device_id : ℕ
  pub device_secret : Text

-- `a or b` on values that may be `None` or an empty text
abbrev pub text_or_else : Option Text → Option Text → Option Text
text_or_else none b = b
text_or_else (some []) b = b
text_or_else (some (c ∷ t)) b = some (c ∷ t)

abbrev pub id_or_else : Option ℕ → Option ℕ → Option ℕ
id_or_else none b = b
id_or_else (some a) b = some a

-- `if job is None: raise HTTPException(404)`
unfoldable pub found : Option AgentJob → Result AgentJob
found none = err (not_found "Job not found")
found (some job) = ok job

-- The request model refuses a secret of fewer than 16 characters.
unfoldable pub poll_request : Option ℕ → Option Text → Result PollRequest
poll_request none secret = err (unauthorized "Invalid device credentials")
poll_request (some device_id) none = err (unauthorized "Invalid device credentials")
poll_request (some device_id) (some secret) =
    if ltb (length secret) 16
    then err (value_error "device_secret")
    else ok (record { device_id = device_id; device_secret = secret })

module _ (hash : Text → Text) where
  -- `_authenticate_agent_jobs`: the agent with its key
  unfoldable pub authenticate_agent_jobs : PollRequest → Db → Result (ℕ × Agent)
  authenticate_agent_jobs payload db =
      elim (scalar (λ k agent. opt_eq agent.device_id payload.device_id) db.agents) [
        | none ↦ err (unauthorized "Invalid device credentials")
        | some (agent_id, agent) ↦
            if verify_token hash payload.device_secret agent.device_secret_hash
            then ok (agent_id, agent)
            else err (unauthorized "Invalid device credentials")
      ]

  unfoldable pub poll_jobs :
      ℕ → Option ℕ → Option Text → Option ℕ → Option Text → Db → Result (List JobResponse × Db)
  unfolding authenticate_agent_jobs
  poll_jobs now device_id device_secret header_id header_secret db = do
    payload ←
        poll_request (id_or_else header_id device_id) (text_or_else header_secret device_secret)
    (agent_id, agent) ← authenticate_agent_jobs payload db
    let (jobs, assigned) = assign_jobs_for_agent now agent_id agent db
    let committed = flush assigned
    ok (map (job_response false committed) (keys_of jobs), committed)

  unfoldable pub start_polled_job : ℕ → ℕ → PollRequest → Db → Result (JobResponse × Db)
  unfolding authenticate_agent_jobs
  start_polled_job now job_id payload db = do
    (agent_id, agent) ← authenticate_agent_jobs payload db
    job ← found (get job_id db.jobs)
    started ← start_job now job_id job agent_id agent db
    let committed = flush started
    ok (job_response true committed job_id, committed)

  unfoldable pub complete_polled_job :
      ℕ → ℕ → PollRequest → Completion → Db → Result (JobResponse × Db)
  unfolding authenticate_agent_jobs
  complete_polled_job now job_id payload c db = do
    (agent_id, agent) ← authenticate_agent_jobs payload db
    job ← found (get job_id db.jobs)
    completed ← complete_job now job_id job agent_id agent c db
    let committed = flush completed
    ok (job_response true committed job_id, committed)
