-- ===== src/Jobs/Lifecycle/Sound.antt =====
-- The invariant of the jobs between two requests, and that each request about jobs keeps it.
use cyclope_central.Base.{
  ℕ, String, ◌≡◌, true, Option, List, [], ◌∷◌, arith, All, Bool-cases, inl, inr, All-take, All-both,
}
use cyclope_central.Base.Int.{ℤ}
use cyclope_central.Base.Json.{Text, Dict}
use cyclope_central.Http.{Result, ok, err, Result-cases}
use cyclope_central.Session.{Table, select, IsClean}
use cyclope_central.Session.Laws.{flush-IsClean, All-select}
use cyclope_central.Session.Rows.{
  AllRows, AllRows-write, AllRows-flush, AllRows-add, AllRows-select,
}
use cyclope_central.Models.Device.{Device, Agent}
use cyclope_central.Models.Job.{AgentJob}
use cyclope_central.Database.{Db, flush}
use cyclope_central.Jobs.Payload.{validate_job_payload}
use cyclope_central.Jobs.Core.{
  Completion, create_job, start_job, complete_job, cancel_job, is_terminal, can_start, is_running,
  may_work,
}
use cyclope_central.Jobs.Queue.{
  expire_all, expire_job, is_overdue, waiting_jobs, is_waiting, is_queued, order_by_age,
  assign_jobs_for_agent, assign_all, assign_job, assigned_job,
}
use cyclope_central.Jobs.Queue.Order.{All-order_by_age}
use cyclope_central.Jobs.Lifecycle.{
  IsConsistent, new_job-IsConsistent, started-IsConsistent, completed-IsConsistent,
  canceled-IsConsistent, expired-IsConsistent, is_begun, is_held,
}

-- Between two requests everything is written back.
pub record IsSound (db : Db) : Type 0 where
  pub clean : IsClean db.jobs
  pub consistent : AllRows IsConsistent db.jobs

-- A commit of consistent jobs is sound.
pub flush-IsSound : (db : Db) → AllRows IsConsistent db.jobs → IsSound (flush db)
unfolding flush
flush-IsSound db h = record {
  clean = flush-IsClean db.jobs;
  consistent = AllRows-flush IsConsistent db.jobs h;
}

pub expire_all-IsConsistent :
    (now : ℕ) (jobs : List (ℕ × AgentJob)) (db : Db)
    → AllRows IsConsistent db.jobs
    → AllRows IsConsistent (expire_all now jobs db).jobs
unfolding expire_all expire_job
expire_all-IsConsistent now [] db h = h
expire_all-IsConsistent now ((k, job) ∷ rest) db h =
    expire_all-IsConsistent now rest (expire_job now k job db)
      (AllRows-write IsConsistent k _ db.jobs (expired-IsConsistent now job) h)

-- A job that may be handed out.
record IsFresh (job : AgentJob) : Type 0 where
  waits : is_queued job.status ≡ true
  sound : IsConsistent job

assigned-IsConsistent :
    (agent_id : ℕ) (job : AgentJob) → IsFresh job → IsConsistent (assigned_job agent_id job)
unfolding assigned_job is_queued is_terminal is_begun is_held
assigned-IsConsistent agent_id job h = ground (arith, h.sound.closed, h.sound.begun, h.waits)

waiting-is_queued :
    (agent : Agent) (job_id : ℕ) (job : AgentJob)
    → is_waiting agent job_id job ≡ true
    → is_queued job.status ≡ true
unfolding is_waiting
waiting-is_queued agent job_id job h = ground arith

abbrev Fresh : List (ℕ × AgentJob) → Type 0
Fresh jobs = All (λ (e : ℕ × AgentJob). IsFresh e.1) jobs

assign_all-IsConsistent :
    (agent_id : ℕ) (jobs : List (ℕ × AgentJob)) (db : Db)
    → Fresh jobs
    → AllRows IsConsistent db.jobs
    → AllRows IsConsistent (assign_all agent_id jobs db).jobs
unfolding assign_all assign_job
assign_all-IsConsistent agent_id [] db f h = h
assign_all-IsConsistent agent_id ((k, job) ∷ rest) db f h =
    assign_all-IsConsistent agent_id rest (assign_job agent_id k job db) f.1
      (AllRows-write IsConsistent k _ db.jobs (assigned-IsConsistent agent_id job f.0) h)

waiting_jobs-Fresh : (agent : Agent) (db : Db) → IsSound db → Fresh (waiting_jobs agent db)
unfolding waiting_jobs
waiting_jobs-Fresh agent db s =
    All-take (λ (e : ℕ × AgentJob). IsFresh e.1) 5
      (order_by_age (select (is_waiting agent) db.jobs))
      (All-order_by_age (λ (e : ℕ × AgentJob). IsFresh e.1) (select (is_waiting agent) db.jobs)
        (All-both (λ (e : ℕ × AgentJob). is_waiting agent e.0 e.1 ≡ true)
          (λ (e : ℕ × AgentJob). IsConsistent e.1) (λ (e : ℕ × AgentJob). IsFresh e.1)
          (select (is_waiting agent) db.jobs)
          (λ e w c. record { waits = waiting-is_queued agent e.0 e.1 w; sound = c })
          (All-select (is_waiting agent) db.jobs s.clean)
          (AllRows-select IsConsistent (is_waiting agent) db.jobs s.consistent)))

-- the jobs of a session that a successful operation hands back
abbrev pub jobs_after : Result Db → Table AgentJob
jobs_after (ok db) = db.jobs
jobs_after (err e) = []

abbrev pub jobs_created : Result (ℕ × Db) → Table AgentJob
jobs_created (ok (job_id, db)) = db.jobs
jobs_created (err e) = []

pub create-IsConsistent :
    (parse : Text → Option ℤ) (timeout now device_id : ℕ) (device : Device) (job_type : String)
    (payload : Option Dict) (db : Db)
    → AllRows IsConsistent db.jobs
    → AllRows IsConsistent
        (jobs_created (create_job parse timeout now device_id device job_type payload db))
unfolding create_job
create-IsConsistent parse timeout now device_id device job_type payload db h =
    elim (Result-cases (validate_job_payload parse job_type payload)) [
      | inr (e, q) ↦ rw q tt
      | inl (safe, q) ↦ rw q (
          AllRows-flush IsConsistent _ (
            AllRows-add IsConsistent db.next_id _ db.jobs
              (new_job-IsConsistent timeout now device_id device job_type safe) h))
    ]

module _ (now job_id : ℕ) (job : AgentJob) (db : Db) (h : AllRows IsConsistent db.jobs)
    (j : IsConsistent job) where
  pub start-IsConsistent :
      (agent_id : ℕ) (agent : Agent)
      → AllRows IsConsistent (jobs_after (start_job now job_id job agent_id agent db))
  unfolding start_job
  start-IsConsistent agent_id agent = elim (Bool-cases (may_work job agent_id agent)) [
    | inr m ↦ rw m tt
    | inl m ↦ elim (Bool-cases (can_start job.status)) [
      | inr c ↦ rw (m, c) tt
      | inl c ↦
          rw (m, c)
            (AllRows-write IsConsistent job_id _ db.jobs (started-IsConsistent now job agent_id c j)
              h)
    ]
  ]

  pub complete-IsConsistent :
      (agent_id : ℕ) (agent : Agent) (c : Completion)
      → AllRows IsConsistent (jobs_after (complete_job now job_id job agent_id agent c db))
  unfolding complete_job
  complete-IsConsistent agent_id agent c = elim (Bool-cases (may_work job agent_id agent)) [
    | inr m ↦ rw m tt
    | inl m ↦ elim (Bool-cases (is_running job.status)) [
      | inr r ↦ rw (m, r) tt
      | inl r ↦
          rw (m, r)
            (AllRows-write IsConsistent job_id _ db.jobs (completed-IsConsistent now job c r j) h)
    ]
  ]

  pub cancel-IsConsistent : AllRows IsConsistent (cancel_job now job_id job db).jobs
  unfolding cancel_job
  cancel-IsConsistent = elim (Bool-cases (is_terminal job.status)) [
    | inl t ↦ rw t h
    | inr t ↦ rw t (AllRows-write IsConsistent job_id _ db.jobs (canceled-IsConsistent now job j) h)
  ]

pub poll-IsConsistent :
    (now agent_id : ℕ) (agent : Agent) (db : Db)
    → select (is_overdue now agent.device_id) db.jobs ≡ []
    → IsSound db
    → AllRows IsConsistent (assign_jobs_for_agent now agent_id agent db).1.jobs
unfolding assign_jobs_for_agent expire_all
poll-IsConsistent now agent_id agent db n s = rw n (
    AllRows-flush IsConsistent _ (
      assign_all-IsConsistent agent_id (waiting_jobs agent db) db (waiting_jobs-Fresh agent db s)
        s.consistent))
