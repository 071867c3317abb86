-- ===== src/Jobs/Sweep.antt =====
-- What a poll hands out, against the sweep that precedes it in `assign_jobs_for_agent`: the sweep's
-- writes stay in the session, and the query of the waiting jobs runs on the database.
use cyclope_central.Base.{
  zero, suc, ℕ, ◌≤◌, ◌≡◌, refl, sym, ◌∙◌, ap, Bool, true, false, not, ◌&&◌, some, List, [], ◌∷◌,
  arith, ◌==◌, if◌then◌else◌, All, All-take, Bool-cases, inl, inr, take, opt_eq, leb, length,
  length-take-le,
}
use cyclope_central.Session.{Row, Table, picks, select, write, IsClean}
use cyclope_central.Session.Keys.{HasDistinctKeys}
use cyclope_central.Session.Laws.{All-select}
use cyclope_central.Models.Device.{Agent}
use cyclope_central.Models.Job.{JobStatus, AgentJob}
use cyclope_central.Database.{Db}
use cyclope_central.Jobs.Queue.{
  is_overdue, is_waiting, expired_job, expire_job, expire_all, expire_jobs, insert_by_age,
  order_by_age, waiting_jobs, assigned_job, handed_out, assign_jobs_for_agent,
}
use cyclope_central.Jobs.Queue.Order.{All-order_by_age}
use cyclope_central.Jobs.Api.{keys_of}

-- the keys and ages of selected jobs
ages : List (ℕ × AgentJob) → List (ℕ × ℕ)
ages [] = []
ages ((k, job) ∷ rest) = (k, job.created_at) ∷ ages rest

-- Whoever has the key `k` in the table is of age `c`.
abbrev IsOfAge : ℕ → ℕ → Row AgentJob → Type 0
IsOfAge k c r = ((r.key == k) && not (r.live.created_at == c)) ≡ false

abbrev Agrees : ℕ → ℕ → Table AgentJob → Type 0
Agrees k c t = All (IsOfAge k c) t

ages-select-write :
    (p : ℕ → AgentJob → Bool) (k : ℕ) (a : AgentJob) (t : Table AgentJob)
    → Agrees k a.created_at t
    → ages (select p (write k a t)) ≡ ages (select p t)
unfolding ages select write
ages-select-write p k a [] h = refl
ages-select-write p k a (r ∷ t) h = ground (arith, ages-select-write p k a t h.1, h.0)

Agrees-write :
    (j c k : ℕ) (a : AgentJob) (t : Table AgentJob)
    → Agrees k a.created_at t
    → Agrees j c t
    → Agrees j c (write k a t)
unfolding write
Agrees-write j c k a [] h g = tt
Agrees-write j c k a (r ∷ t) h g = (ground (arith, h.0, g.0), Agrees-write j c k a t h.1 g.1)

abbrev AllAgree : List (ℕ × AgentJob) → Table AgentJob → Type 0
AllAgree l t = All (λ (e : ℕ × AgentJob). Agrees e.0 e.1.created_at t) l

AllAgree-write :
    (k : ℕ) (a : AgentJob) (t : Table AgentJob) (l : List (ℕ × AgentJob))
    → Agrees k a.created_at t
    → AllAgree l t
    → AllAgree l (write k a t)
AllAgree-write k a t [] h g = tt
AllAgree-write k a t (e ∷ l) h g =
    (Agrees-write e.0 e.1.created_at k a t h g.0, AllAgree-write k a t l h g.1)

-- The sweep changes neither which rows a query finds nor their ages.
ages-select-expire_all :
    (p : ℕ → AgentJob → Bool) (now : ℕ) (l : List (ℕ × AgentJob)) (db : Db)
    → AllAgree l db.jobs
    → ages (select p (expire_all now l db).jobs) ≡ ages (select p db.jobs)
unfolding expire_all expire_job
ages-select-expire_all p now [] db h = refl
ages-select-expire_all p now ((k, job) ∷ rest) db h =
    ages-select-expire_all p now rest (expire_job now k job db)
      (AllAgree-write k (expired_job now job) db.jobs rest h.0 h.1)
    ∙ ages-select-write p k (expired_job now job) db.jobs h.0

cons-Agrees :
    (r : Row AgentJob) (p : ℕ → AgentJob → Bool) (t s : Table AgentJob)
    → All (λ q. (r.key == q.key) ≡ false) t
    → AllAgree (select p t) s
    → AllAgree (select p t) (r ∷ s)
unfolding select
cons-Agrees r p [] s d h = tt
cons-Agrees r p (q ∷ t) s d h = elim (Bool-cases (picks p q)) [
  | inl e ↦ (let g = rw e at h in rw e ((ground (arith, d.0), g.0), cons-Agrees r p t s d.1 g.1))
  | inr e ↦ rw e (cons-Agrees r p t s d.1 (rw e at h))
]

head-Agrees :
    (r : Row AgentJob) (t : Table AgentJob)
    → All (λ q. (r.key == q.key) ≡ false) t
    → Agrees r.key r.live.created_at t
head-Agrees r [] d = tt
head-Agrees r (q ∷ t) d = (ground (arith, d.0), head-Agrees r t d.1)

select-Agrees :
    (p : ℕ → AgentJob → Bool) (t : Table AgentJob) → HasDistinctKeys t → AllAgree (select p t) t
unfolding select
select-Agrees p [] d = tt
select-Agrees p (r ∷ t) d = elim (Bool-cases (picks p r)) [
  | inl e ↦ rw e (
    (ground arith, head-Agrees r t d.0),
    unfold select in cons-Agrees r p t t d.0 (select-Agrees p t d.1),
  )
  | inr e ↦ rw e (cons-Agrees r p t t d.0 (select-Agrees p t d.1))
]

-- ordering by age, on keys and ages alone
insert_age : ℕ × ℕ → List (ℕ × ℕ) → List (ℕ × ℕ)
insert_age e [] = e ∷ []
insert_age e (f ∷ rest) =
    let later = insert_age e rest in if leb e.1 f.1 then e ∷ f ∷ rest else f ∷ later

sort_ages : List (ℕ × ℕ) → List (ℕ × ℕ)
sort_ages [] = []
sort_ages (e ∷ rest) = insert_age e (sort_ages rest)

ages-insert :
    (e : ℕ × AgentJob) (l : List (ℕ × AgentJob))
    → ages (insert_by_age e l) ≡ insert_age (e.0, e.1.created_at) (ages l)
unfolding ages insert_by_age insert_age
ages-insert e [] = refl
ages-insert e (f ∷ rest) = ground (arith, ages-insert e rest)

ages-order : (l : List (ℕ × AgentJob)) → ages (order_by_age l) ≡ sort_ages (ages l)
unfolding ages order_by_age sort_ages
ages-order [] = refl
ages-order (e ∷ rest) =
    ages-insert e (order_by_age rest) ∙ ap (insert_age (e.0, e.1.created_at)) (ages-order rest)

ages-take : (n : ℕ) (l : List (ℕ × AgentJob)) → ages (take n l) ≡ take n (ages l)
unfolding ages
ages-take zero l = refl
ages-take (suc n) [] = refl
ages-take (suc n) (e ∷ l) = ap (λ r. (e.0, e.1.created_at) ∷ r) (ages-take n l)

keys : List (ℕ × ℕ) → List ℕ
keys [] = []
keys ((k, c) ∷ rest) = k ∷ keys rest

keys-ages : (l : List (ℕ × AgentJob)) → keys_of l ≡ keys (ages l)
unfolding keys_of keys ages
keys-ages [] = refl
keys-ages (e ∷ l) = ap (λ r. e.0 ∷ r) (keys-ages l)

keys_of-handed_out :
    (agent_id : ℕ) (l : List (ℕ × AgentJob)) → keys_of (handed_out agent_id l) ≡ keys_of l
unfolding keys_of handed_out
keys_of-handed_out agent_id [] = refl
keys_of-handed_out agent_id ((k, job) ∷ l) = ap (λ r. k ∷ r) (keys_of-handed_out agent_id l)

-- Where no two jobs share a key, a poll hands out the jobs that were waiting before its sweep, in the same
-- order: that the sweep has just marked some of them as expired, because their time is over, makes no
-- difference.
pub sweep_is_ignored :
    (now agent_id : ℕ) (agent : Agent) (db : Db)
    → HasDistinctKeys db.jobs
    → keys_of (assign_jobs_for_agent now agent_id agent db).0 ≡ keys_of (waiting_jobs agent db)
unfolding assign_jobs_for_agent
sweep_is_ignored now agent_id agent db d =
    let swept = expire_jobs now agent.device_id db in
    let same : ages (select (is_waiting agent) swept.jobs)
        ≡ ages (select (is_waiting agent) db.jobs) =
      unfold expire_jobs in
      ages-select-expire_all (is_waiting agent) now
        (select (is_overdue now agent.device_id) db.jobs) db
        (select-Agrees (is_overdue now agent.device_id) db.jobs d) in
    keys_of-handed_out agent_id (waiting_jobs agent swept)
    ∙ keys-ages (waiting_jobs agent swept)
    ∙ ap keys (
        unfold waiting_jobs in
        (ages-take 5 (order_by_age (select (is_waiting agent) swept.jobs))
          ∙ ap (take 5) (
              ages-order (select (is_waiting agent) swept.jobs)
              ∙ ap sort_ages same
              ∙ sym (ages-order (select (is_waiting agent) db.jobs)))
          ∙ sym (ages-take 5 (order_by_age (select (is_waiting agent) db.jobs)))))
    ∙ sym (keys-ages (waiting_jobs agent db))

-- A job that a poll may hand out as the agent's.
abbrev pub IsAssignedTo : ℕ → Agent → ℕ × AgentJob → Type 0
IsAssignedTo agent_id agent e =
    (e.1.status ≡ JobStatus.assigned)
    × (e.1.assigned_agent_id ≡ some agent_id)
    × (opt_eq agent.device_id e.1.device_id ≡ true)

handed_out-IsAssignedTo :
    (agent_id : ℕ) (agent : Agent) (l : List (ℕ × AgentJob))
    → All (λ (e : ℕ × AgentJob). is_waiting agent e.0 e.1 ≡ true) l
    → All (IsAssignedTo agent_id agent) (handed_out agent_id l)
unfolding handed_out assigned_job is_waiting
handed_out-IsAssignedTo agent_id agent [] h = tt
handed_out-IsAssignedTo agent_id agent ((k, job) ∷ rest) h =
    ((refl, refl, ground (arith, h.0)), handed_out-IsAssignedTo agent_id agent rest h.1)

length-handed_out :
    (agent_id : ℕ) (l : List (ℕ × AgentJob)) → length (handed_out agent_id l) ≡ length l
unfolding handed_out
length-handed_out agent_id [] = refl
length-handed_out agent_id ((k, job) ∷ rest) = ap suc (length-handed_out agent_id rest)

-- Where nothing is pending on the jobs and no job of the device is overdue, a poll hands out at most five
-- jobs, and each of them is a job of the agent's device, now assigned to the agent.
pub poll_hands_out :
    (now agent_id : ℕ) (agent : Agent) (db : Db)
    → IsClean db.jobs
    → select (is_overdue now agent.device_id) db.jobs ≡ []
    → (length (assign_jobs_for_agent now agent_id agent db).0 ≤ 5)
      × All (IsAssignedTo agent_id agent) (assign_jobs_for_agent now agent_id agent db).0
unfolding assign_jobs_for_agent expire_all waiting_jobs
poll_hands_out now agent_id agent db clean n =
    let queue = order_by_age (select (is_waiting agent) db.jobs) in
    rw n (
      omega (arith, length-handed_out agent_id (take 5 queue), length-take-le 5 queue),
      handed_out-IsAssignedTo agent_id agent (take 5 queue) (
          All-take (λ (e : ℕ × AgentJob). is_waiting agent e.0 e.1 ≡ true) 5 queue
            (All-order_by_age (λ (e : ℕ × AgentJob). is_waiting agent e.0 e.1 ≡ true)
              (select (is_waiting agent) db.jobs) (All-select (is_waiting agent) db.jobs clean))),
    )
