-- ===== src/Jobs/Core/Transitions.antt =====
-- What `start_job`, `complete_job` and `cancel_job` ask for and what they change.
use cyclope_central.Base.{
  ℕ, ◌+◌, ◌≡◌, refl, true, false, not, ◌||◌, ◌⊎◌, Option, none, some, is_some, opt_eq, [], ◌∷◌,
  ◌++◌, arith, ◌==◌, if◌then◌else◌, length, length-append, Bool-cases, inl, inr, take,
}
use cyclope_central.Base.Json.{Text}
use cyclope_central.Http.{ok, is_ok}
use cyclope_central.Session.{get, peek, write}
use cyclope_central.Session.Laws.{get-write, peek-write}
use cyclope_central.Models.Device.{Agent}
use cyclope_central.Models.Job.{JobStatus, AgentJob}
use cyclope_central.Database.{Db}
use cyclope_central.Jobs.Core.{
  may_work, can_start, is_running, is_terminal, started_job, completed_job, canceled_job,
  job_result, start_job, complete_job, cancel_job, Completion, after_start, after_complete,
  final_status,
}

-- Of the jobs exactly one changed, and only in the session; there are one more event and one more audit
-- entry.
pub record Changes (job_id : ℕ) (job : AgentJob) (db db' : Db) : Type 0 where
  pub jobs : (k : ℕ) → get k db'.jobs ≡ (if job_id == k then some job else get k db.jobs)
  pub unflushed : (k : ℕ) → peek k db'.jobs ≡ peek k db.jobs
  pub one_event : length db'.job_events ≡ length db.job_events + 1
  pub one_audit : length db'.audit_logs ≡ length db.audit_logs + 1

-- The agent is of the job's device, and the job is unassigned or the agent's own.
pub record IsWorkable (job : AgentJob) (agent_id : ℕ) (agent : Agent) : Type 0 where
  pub same_device : agent.device_id ≡ some job.device_id
  pub own : (job.assigned_agent_id ≡ none) ⊎ (job.assigned_agent_id ≡ some agent_id)

opt_eq_sound : (o : Option ℕ) (n : ℕ) → opt_eq o n ≡ true → o ≡ some n
opt_eq_sound none n h = cc
opt_eq_sound (some m) n h = (let p : m ≡ n = ground arith in rw p refl)

assigned_sound :
    (o : Option ℕ) (n : ℕ) → (not (is_some o) || opt_eq o n) ≡ true → (o ≡ none) ⊎ (o ≡ some n)
assigned_sound none n h = inl refl
assigned_sound (some m) n h = inr (opt_eq_sound (some m) n h)

may_work_sound :
    (job : AgentJob) (agent_id : ℕ) (agent : Agent)
    → may_work job agent_id agent ≡ true
    → IsWorkable job agent_id agent
unfolding may_work
may_work_sound job agent_id agent h = record {
  same_device = opt_eq_sound agent.device_id job.device_id (ground arith);
  own = assigned_sound job.assigned_agent_id agent_id (ground arith);
}

can_start_sound :
    (s : JobStatus) → can_start s ≡ true → (s ≡ JobStatus.queued) ⊎ (s ≡ JobStatus.assigned)
unfolding can_start
can_start_sound JobStatus.queued h = inl refl
can_start_sound JobStatus.assigned h = inr refl
can_start_sound JobStatus.running h = cc
can_start_sound JobStatus.succeeded h = cc
can_start_sound JobStatus.failed h = cc
can_start_sound JobStatus.canceled h = cc
can_start_sound JobStatus.expired h = cc

is_running_sound : (s : JobStatus) → is_running s ≡ true → s ≡ JobStatus.running
unfolding is_running
is_running_sound JobStatus.running h = refl
is_running_sound JobStatus.queued h = cc
is_running_sound JobStatus.assigned h = cc
is_running_sound JobStatus.succeeded h = cc
is_running_sound JobStatus.failed h = cc
is_running_sound JobStatus.canceled h = cc
is_running_sound JobStatus.expired h = cc

-- a write of a job that is there
written :
    (job_id k : ℕ) (old job : AgentJob) (db : Db)
    → get job_id db.jobs ≡ some old
    → get k (write job_id job db.jobs) ≡ (if job_id == k then some job else get k db.jobs)
written job_id k old job db h = elim (Bool-cases (job_id == k)) [
  | inl e ↦ (let p : job_id ≡ k = ground arith in rw (get-write, e, ← p, h))
  | inr e ↦ rw (get-write, e)
]

module _ (now job_id : ℕ) (job : AgentJob) (agent_id : ℕ) (agent : Agent) (db : Db) where
  -- If `start_job` succeeds on a stored job, then the agent is of the job's device and the job was
  -- unassigned or the agent's own, and its status was "assigned" or "queued". In the session exactly that
  -- job changed: it is running, assigned to the agent and started now, and is otherwise as before. The
  -- database holds what it held, and one event and one audit entry were added.
  pub start_job-Changes :
      (db' : Db)
      → get job_id db.jobs ≡ some job
      → start_job now job_id job agent_id agent db ≡ ok db'
      → IsWorkable job agent_id agent
        × ((job.status ≡ JobStatus.queued) ⊎ (job.status ≡ JobStatus.assigned))
        × Changes job_id
            (record job {
              status = JobStatus.running;
              assigned_agent_id = some agent_id;
              started_at = some now;
            })
            db
            db'
  unfolding start_job after_start started_job
  start_job-Changes db' h s = elim (Bool-cases (may_work job agent_id agent)) [
    | inr m ↦ cc (rw m at s)
    | inl m ↦ elim (Bool-cases (can_start job.status)) [
      | inr c ↦ cc (rw (m, c) at s)
      | inl c ↦ (
        may_work_sound job agent_id agent m,
        can_start_sound job.status c,
        (let e : after_start now job_id job agent_id db ≡ db' = ground (arith, rw (m, c) at s) in
            rw (← e) (record {
              jobs = λ k. written job_id k job _ db h;
              unflushed = λ k. peek-write k job_id _ db.jobs;
              one_event = length-append _ _;
              one_audit = length-append _ _;
            })),
      )
    ]
  ]

  -- If `complete_job` succeeds on a stored job, then the agent is of the job's device, the job was
  -- unassigned or the agent's own, and it was running. In the session exactly that job changed: it is
  -- succeeded or failed as the agent says, is completed now, has some summary, and is otherwise as before.
  -- The database's jobs are as they were, and one event and one audit entry were added. Exactly one result
  -- was added: it is of this job and its organization and has the job's new status, the first 20000
  -- characters of the output, some error, and the agent's exit code and metadata.
  pub complete_job-Changes :
      (c : Completion) (db' : Db)
      → get job_id db.jobs ≡ some job
      → complete_job now job_id job agent_id agent c db ≡ ok db'
      → IsWorkable job agent_id agent
        × (job.status ≡ JobStatus.running)
        × ((summary : Option Text) × Changes job_id
              (record job {
                status = if c.succeeded then JobStatus.succeeded else JobStatus.failed;
                completed_at = some now;
                result_summary = summary;
              })
              db
              db')
        × ((error : Option Text) × (db'.job_results
              ≡ db.job_results
                ++ record {
                  organization_id = job.organization_id;
                  job_id = job_id;
                  status = if c.succeeded then JobStatus.succeeded else JobStatus.failed;
                  output = take 20000 c.output;
                  error = error;
                  exit_code = c.exit_code;
                  metadata_json = c.metadata;
                }
                  ∷ []))
  unfolding complete_job after_complete completed_job final_status job_result
  complete_job-Changes c db' h s = elim (Bool-cases (may_work job agent_id agent)) [
    | inr m ↦ cc (rw m at s)
    | inl m ↦ elim (Bool-cases (is_running job.status)) [
      | inr r ↦ cc (rw (m, r) at s)
      | inl r ↦
          (let e : after_complete now job_id job c db ≡ db' = ground (arith, rw (m, r) at s) in
            (
              may_work_sound job agent_id agent m,
              is_running_sound job.status r,
              (
                (completed_job now c job).result_summary,
                rw (← e) (record {
                  jobs = λ k. written job_id k job _ db h;
                  unflushed = λ k. peek-write k job_id _ db.jobs;
                  one_event = length-append _ _;
                  one_audit = length-append _ _;
                }),
              ),
              ((job_result job_id (completed_job now c job) c).error, rw (← e) refl),
            ))
    ]
  ]

-- Once a job's status is terminal, an operator's cancel changes nothing, and no agent can start or
-- complete the job, whoever it is and whatever result it sends.
pub terminal_is_final :
    (now job_id : ℕ) (job : AgentJob) (agent_id : ℕ) (agent : Agent) (c : Completion) (db : Db)
    → is_terminal job.status ≡ true
    → (cancel_job now job_id job db ≡ db)
      × (is_ok (start_job now job_id job agent_id agent db) ≡ false)
      × (is_ok (complete_job now job_id job agent_id agent c db) ≡ false)
unfolding start_job complete_job cancel_job
terminal_is_final now job_id job agent_id agent c db t =
    let s : can_start job.status ≡ false = ground arith in
    let r : is_running job.status ≡ false = ground arith in
    elim (Bool-cases (may_work job agent_id agent)) [
      | inl m ↦ (rw t, rw (m, s), rw (m, r))
      | inr m ↦ (rw t, rw m, rw m)
    ]

-- Completing and canceling end in a terminal status.
pub terminal_after :
    (now : ℕ) (c : Completion) (job : AgentJob)
    → (is_terminal (completed_job now c job).status ≡ true)
      × (is_terminal (canceled_job now job).status ≡ true)
unfolding completed_job canceled_job is_terminal
terminal_after now c job = (ground arith, refl)
