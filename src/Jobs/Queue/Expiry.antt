-- ===== src/Jobs/Queue/Expiry.antt =====
-- What `expire_jobs` leaves behind.
use mathlib.Core.Path.{subst}
use cyclope_central.Base.{
  ℕ, ◌≡◌, refl, Bool, true, false, not, ◌||◌, Option, List, [], ◌∷◌, arith, ◌==◌, ==_refl, All,
  Bool-cases, inl, inr,
}
use cyclope_central.Session.{Row, Table, select, write, IsClean}
use cyclope_central.Models.Job.{AgentJob}
use cyclope_central.Database.{Db}
use cyclope_central.Jobs.Core.{write_job, add_job_event, audit_job}
use cyclope_central.Jobs.Queue.{
  is_unfinished, is_overdue, expired_job, expire_job, expire_all, expire_jobs,
}

has_key : ℕ → List (ℕ × AgentJob) → Bool
has_key k [] = false
has_key k ((j, job) ∷ rest) = (k == j) || has_key k rest

module _ (now : ℕ) (device_id : Option ℕ) where
  -- A job that is overdue still has its place in the sweep.
  abbrev IsSwept : List (ℕ × AgentJob) → Row AgentJob → Type 0
  IsSwept l r = (not (is_overdue now device_id r.key r.live) || has_key r.key l) ≡ true

  expired_job-not-overdue :
      (k : ℕ) (job : AgentJob) → is_overdue now device_id k (expired_job now job) ≡ false
  unfolding is_overdue expired_job is_unfinished
  expired_job-not-overdue k job = refl

  IsSwept-write :
      (k : ℕ) (job : AgentJob) (l : List (ℕ × AgentJob)) (t : Table AgentJob)
      → All (IsSwept ((k, job) ∷ l)) t
      → All (IsSwept l) (write k (expired_job now job) t)
  unfolding write has_key
  IsSwept-write k job l [] h = tt
  IsSwept-write k job l (r ∷ t) h = elim (Bool-cases (r.key == k)) [
    | inl e ↦ (rw (e, expired_job-not-overdue r.key job) refl, IsSwept-write k job l t h.1)
    | inr e ↦ (rw e (rw (has_key, e) at h.0), IsSwept-write k job l t h.1)
  ]

  IsSwept-cons :
      (e : ℕ × AgentJob) (l : List (ℕ × AgentJob)) (t : Table AgentJob)
      → All (IsSwept l) t
      → All (IsSwept (e ∷ l)) t
  unfolding has_key
  IsSwept-cons e l [] h = tt
  IsSwept-cons e l (r ∷ t) h = (ground (arith, h.0), IsSwept-cons e l t h.1)

  IsSwept-select :
      (t : Table AgentJob) (l : List (ℕ × AgentJob))
      → IsClean t
      → select (is_overdue now device_id) t ≡ l
      → All (IsSwept l) t
  unfolding select has_key
  IsSwept-select [] l c h = tt
  IsSwept-select (r ∷ t) l c h = elim (Bool-cases (is_overdue now device_id r.key r.live)) [
    | inl e ↦
        (let rest = select (is_overdue now device_id) t in
          let g : ((r.key, r.live) ∷ rest) ≡ l = rw (select, c.0, e) at h in
          subst (λ m. All (IsSwept m) (r ∷ t)) g
            (
              rw (e, ==_refl) refl,
              IsSwept-cons (r.key, r.live) rest t (IsSwept-select t rest c.1 refl),
            ))
    | inr e ↦ (rw e refl, IsSwept-select t l c.1 (rw (select, c.0, e) at h))
  ]

  IsSwept-expire_all :
      (l : List (ℕ × AgentJob)) (db : Db)
      → All (IsSwept l) db.jobs
      → All (IsSwept []) (expire_all now l db).jobs
  unfolding expire_all expire_job write_job add_job_event audit_job
  IsSwept-expire_all [] db h = h
  IsSwept-expire_all ((k, job) ∷ rest) db h =
      IsSwept-expire_all rest (expire_job now k job db) (IsSwept-write k job rest db.jobs h)

  -- the attributes of a job that is not overdue
  abbrev pub IsNotOverdue : Row AgentJob → Type 0
  IsNotOverdue r = is_overdue now device_id r.key r.live ≡ false

  IsSwept-IsNotOverdue : (t : Table AgentJob) → All (IsSwept []) t → All IsNotOverdue t
  unfolding has_key
  IsSwept-IsNotOverdue [] h = tt
  IsSwept-IsNotOverdue (r ∷ t) h = (ground (arith, h.0), IsSwept-IsNotOverdue t h.1)

  -- After the sweep of a session where nothing is pending on the jobs, no job of the device (of any device,
  -- where none is named) is queued, assigned or running beyond its time.
  pub expire_jobs-IsNotOverdue :
      (db : Db) → IsClean db.jobs → All IsNotOverdue (expire_jobs now device_id db).jobs
  unfolding expire_jobs
  expire_jobs-IsNotOverdue db c =
      IsSwept-IsNotOverdue (expire_all now (select (is_overdue now device_id) db.jobs) db).jobs (
        IsSwept-expire_all (select (is_overdue now device_id) db.jobs) db
          (IsSwept-select db.jobs (select (is_overdue now device_id) db.jobs) c refl))
