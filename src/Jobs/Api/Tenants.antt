-- ===== src/Jobs/Api/Tenants.antt =====
-- What the handlers of backend/app/api/jobs.py let a caller reach.
use cyclope_central.Base.{ℕ, String, is_in, ◌≡◌, true, some, Bool-cases, inl, inr}
use cyclope_central.Http.{ok, >>=-eq-ok}
use cyclope_central.Session.{get}
use cyclope_central.Session.Owned.{owned_sound}
use cyclope_central.Models.Tenant.{User}
use cyclope_central.Models.Device.{Device}
use cyclope_central.Models.Job.{AgentJob}
use cyclope_central.Database.{Db, flush}
use cyclope_central.Auth.Roles.{role_permissions, require_permission}
use cyclope_central.Jobs.Core.{cancel_job}
use cyclope_central.Jobs.Api.{JobResponse, owned_device, owned_job, cancel_agent_job}

owned_job_sound :
    (job_id organization_id : ℕ) (db : Db) (job : AgentJob)
    → owned_job job_id organization_id db ≡ ok job
    → (get job_id db.jobs ≡ some job) × (job.organization_id ≡ organization_id)
unfolding owned_job
owned_job_sound job_id organization_id db job h =
    owned_sound (λ row. row.organization_id) "Job not found" organization_id (get job_id db.jobs)
      job h

pub owned_device_sound :
    (detail : String) (device_id organization_id : ℕ) (db : Db) (device : Device)
    → owned_device detail device_id organization_id db ≡ ok device
    → (get device_id db.devices ≡ some device) × (device.organization_id ≡ organization_id)
unfolding owned_device
owned_device_sound detail device_id organization_id db device h =
    owned_sound (λ row. row.organization_id) detail organization_id (get device_id db.devices)
      device h

pub require_permission_sound :
    (permission : String) (user : User) (u : Unit)
    → require_permission permission user ≡ ok u
    → is_in permission (role_permissions user.role) ≡ true
unfolding require_permission
require_permission_sound permission user u h =
    elim (Bool-cases (is_in permission (role_permissions user.role))) [
      | inl e ↦ e
      | inr e ↦ cc (rw (require_permission, e) at h)
    ]

-- A cancellation that is answered was asked for by a user whose role may cancel jobs, on a job of the
-- user's own organization, and the session is that of the cancelled job.
pub cancel_agent_job-IsOwned :
    (now job_id : ℕ) (current : User) (db : Db) (response : JobResponse) (db' : Db)
    → cancel_agent_job now job_id current db ≡ ok (response, db')
    → (is_in "jobs:cancel" (role_permissions current.role) ≡ true)
      × ((job : AgentJob) × (get job_id db.jobs ≡ some job)
          × (job.organization_id ≡ current.organization_id)
          × (flush (cancel_job now job_id job db) ≡ db'))
unfolding cancel_agent_job
cancel_agent_job-IsOwned now job_id current db response db' h =
    (let (u, p, g) = >>=-eq-ok (require_permission "jobs:cancel" current) _ h in
      let (job, o, f) = >>=-eq-ok (owned_job job_id current.organization_id db) _ g in
      let (e, t) = owned_job_sound job_id current.organization_id db job o in
      (require_permission_sound "jobs:cancel" current u p, (job, e, t, cc)))
