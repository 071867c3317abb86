-- ===== src/Jobs/Lifecycle/Reachable.antt =====
-- The committed requests about jobs as a step relation, and the invariant of what they reach.
use cyclope_central.Base.{ℕ, String, ◌≡◌, Option, some, []}
use cyclope_central.Base.Int.{ℤ}
use cyclope_central.Base.Json.{Text, Dict}
use cyclope_central.Http.{ok}
use mathlib.Core.Path.{subst}
use cyclope_central.Session.{get, select}
use cyclope_central.Session.Rows.{AllRows, AllRows-get}
use cyclope_central.Models.Device.{Device, Agent}
use cyclope_central.Models.Job.{AgentJob}
use cyclope_central.Database.{Db, flush}
use cyclope_central.Jobs.Core.{Completion, create_job, start_job, complete_job, cancel_job}
use cyclope_central.Jobs.Queue.{expire_jobs, is_overdue, assign_jobs_for_agent}
use cyclope_central.Jobs.Lifecycle.{IsConsistent}
use cyclope_central.Jobs.Lifecycle.Sound.{
  IsSound, flush-IsSound, expire_all-IsConsistent, jobs_after, jobs_created, create-IsConsistent,
  start-IsConsistent, complete-IsConsistent, cancel-IsConsistent, poll-IsConsistent,
}

-- One committed request. A poll counts only where none of the agent's jobs is overdue.
pub data Step (db db' : Db) : Type 0 where
  create :
      (parse : Text → Option ℤ) (timeout now device_id : ℕ) (device : Device) (job_type : String)
      (payload : Option Dict) (job_id : ℕ) (created : Db)
      → create_job parse timeout now device_id device job_type payload db ≡ ok (job_id, created)
      → db' ≡ flush created
      → Step db db'
  start :
      (now job_id : ℕ) (job : AgentJob) (agent_id : ℕ) (agent : Agent) (started : Db)
      → get job_id db.jobs ≡ some job
      → start_job now job_id job agent_id agent db ≡ ok started
      → db' ≡ flush started
      → Step db db'
  complete :
      (now job_id : ℕ) (job : AgentJob) (agent_id : ℕ) (agent : Agent) (c : Completion)
      (completed : Db)
      → get job_id db.jobs ≡ some job
      → complete_job now job_id job agent_id agent c db ≡ ok completed
      → db' ≡ flush completed
      → Step db db'
  cancel :
      (now job_id : ℕ) (job : AgentJob)
      → get job_id db.jobs ≡ some job
      → db' ≡ flush (cancel_job now job_id job db)
      → Step db db'
  sweep :
      (now : ℕ) (device_id : Option ℕ) → db' ≡ flush (expire_jobs now device_id db) → Step db db'
  poll :
      (now agent_id : ℕ) (agent : Agent)
      → select (is_overdue now agent.device_id) db.jobs ≡ []
      → db' ≡ flush (assign_jobs_for_agent now agent_id agent db).1
      → Step db db'

pub data Reach (db : Db) : Db → Type 0 where
  here : Reach db db
  next : {db' db'' : Db} → Reach db db' → Step db' db'' → Reach db db''

-- A request that succeeds takes a sound state to a sound one.
Step-IsSound : (db db' : Db) → IsSound db → Step db db' → IsSound db'
Step-IsSound db db' s
      (create parse timeout now device_id device job_type payload job_id created e f) =
    rw f (
      flush-IsSound created (
        subst (λ r. AllRows IsConsistent (jobs_created r)) e
          (create-IsConsistent parse timeout now device_id device job_type payload db
            s.consistent)))
Step-IsSound db db' s (start now job_id job agent_id agent started g e f) = rw f (
    flush-IsSound started (
      subst (λ r. AllRows IsConsistent (jobs_after r)) e
        (start-IsConsistent now job_id job db s.consistent
          (AllRows-get IsConsistent job_id job db.jobs s.consistent g) agent_id agent)))
Step-IsSound db db' s (complete now job_id job agent_id agent c completed g e f) = rw f (
    flush-IsSound completed (
      subst (λ r. AllRows IsConsistent (jobs_after r)) e
        (complete-IsConsistent now job_id job db s.consistent
          (AllRows-get IsConsistent job_id job db.jobs s.consistent g) agent_id agent c)))
Step-IsSound db db' s (cancel now job_id job g e) = rw e (
    flush-IsSound (cancel_job now job_id job db) (
      cancel-IsConsistent now job_id job db s.consistent
        (AllRows-get IsConsistent job_id job db.jobs s.consistent g)))
Step-IsSound db db' s (sweep now device_id e) = rw e (
    flush-IsSound (expire_jobs now device_id db) (
      unfold expire_jobs in
      expire_all-IsConsistent now (select (is_overdue now device_id) db.jobs) db s.consistent))
Step-IsSound db db' s (poll now agent_id agent n e) = rw e (
    flush-IsSound (assign_jobs_for_agent now agent_id agent db).1
      (poll-IsConsistent now agent_id agent db n s))

-- From a sound state, committed requests about jobs (create, start, complete, cancel, the sweep of a
-- listing, and a poll of an agent none of whose device's jobs is overdue) reach only sound states: every
-- job has a completion time exactly if its status is terminal, a start time once it is begun, and an
-- agent while it is held.
pub Reach-IsSound : {db db' : Db} → IsSound db → Reach db db' → IsSound db'
Reach-IsSound s here = s
Reach-IsSound s (next {db' = d} {db'' = e} r t) = Step-IsSound d e (Reach-IsSound s r) t
