-- ===== src/Platform/Maintenance.antt =====
-- The health, backup and report handlers of backend/app/api/phase3.py. `answers` tells whether the
-- database answered `SELECT 1`; `title` is `replace("_", " ").title()` of a report type.
use cyclope_central.Base.{Option, ℕ, String, Bool, none, some, List, [], ◌∷◌, opt_eq, if◌then◌else◌}
use cyclope_central.Base.Int.{pos}
use cyclope_central.Base.Json.{Text, Dict, str, int, compound, codes}
use cyclope_central.Http.{Result, ok, err, ◌>>=◌, ◌>>◌, not_found}
use cyclope_central.Session.{get, add}
use cyclope_central.Models.Tenant.{User}
use cyclope_central.Models.Operations.{ReportTemplate}
use cyclope_central.Models.Platform.{SystemHealth, BackupJob, BackupRun}
use cyclope_central.Database.{Db, flush}
use cyclope_central.Auth.Roles.{require_permission}
use cyclope_central.Operations.{commit_audited}
use cyclope_central.Operations.Reports.{queued_run, insert_template, insert_run}
use cyclope_central.Platform.{store}

unfoldable pub database_status : Bool → String
database_status answers = if answers then "ok" else "degraded"

-- the components with their states and details
unfoldable pub components : Bool → List (String × String × Dict)
unfolding database_status
components answers =
    ("backend", "ok", ("version", str (codes "api")) ∷ [])
    ∷ ("database", database_status answers, [])
    ∷ (
      "redis",
      "configured",
      ("check", str (codes "connection validation is deployment-specific")) ∷ [],
    )
    ∷ ("rustdesk-hbbs", "configured", ("ports", compound (codes "[21115, 21116, 21118]")) ∷ [])
    ∷ ("rustdesk-hbbr", "configured", ("ports", compound (codes "[21117, 21119]")) ∷ [])
    ∷ ("agent-connectivity", "observed", ("source", str (codes "device check-ins")) ∷ [])
    ∷ []

unfoldable pub insert_health : SystemHealth → Db → Db
unfolding store
insert_health health db =
    store (record db.platform { health = add db.next_id health db.platform.health }) db

-- the loop of `platform_health`: the rows that it has added
unfoldable pub record_health : ℕ → ℕ → List (String × String × Dict) → Db → List SystemHealth × Db
unfolding insert_health
record_health checked organization_id [] db = ([], db)
record_health checked organization_id ((name, state, details) ∷ rest) db =
    let health : SystemHealth = record {
      organization_id = some organization_id;
      component = name;
      status = state;
      details = details;
      checked_at = checked;
    } in
    let (statuses, db') = record_health checked organization_id rest (insert_health health db) in
    (health ∷ statuses, db')

unfoldable pub platform_health : ℕ → Bool → User → Db → Result ((String × List SystemHealth) × Db)
unfolding database_status components record_health flush
platform_health checked answers current db = do
  require_permission "platform:read" current
  let (statuses, added) = record_health checked current.organization_id (components answers) db
  ok ((database_status answers, statuses), flush added)

pub record BackupJobRequest : Type 0 where
  pub name : String
  pub schedule : String
  pub target : String
  pub enabled : Bool

pub record BackupJobCreated : Type 0 where
  pub id : ℕ
  pub name : String
  pub schedule : String
  pub enabled : Bool

unfoldable pub create_backup_job : BackupJobRequest → ℕ → User → Db → Result (BackupJobCreated × Db)
unfolding store
create_backup_job payload current_id current db = do
  require_permission "backups:manage" current
  let job : BackupJob = record {
    organization_id = some current.organization_id;
    name = payload.name;
    schedule = payload.schedule;
    enabled = payload.enabled;
    target = payload.target;
  }
  ok (
    record { id = db.next_id; name = job.name; schedule = job.schedule; enabled = job.enabled },
    commit_audited current_id current "backup.job.created" "backup_job" (some db.next_id)
        (("schedule", str (codes job.schedule)) ∷ [])
        (store (record db.platform { backup_jobs = add db.next_id job db.platform.backup_jobs })
          db),
  )

-- a backup job of the caller's organization, or 404
unfoldable pub owned_backup_job : ℕ → ℕ → Db → Result BackupJob
owned_backup_job job_id organization_id db = elim (get job_id db.platform.backup_jobs) [
  | none ↦ err (not_found "Backup job not found")
  | some job ↦
      if opt_eq job.organization_id organization_id
      then ok job
      else err (not_found "Backup job not found")
]

pub record BackupRunCreated : Type 0 where
  pub id : ℕ
  pub status : String
  pub validation_status : Option String

unfoldable pub record_backup_run : ℕ → ℕ → User → Db → Result (BackupRunCreated × Db)
unfolding store
record_backup_run job_id current_id current db = do
  require_permission "backups:manage" current
  job ← owned_backup_job job_id current.organization_id db
  let run : BackupRun = record {
    organization_id = some current.organization_id;
    job_id = some job_id;
    status = "recorded";
    validation_status = some "pending";
    notes = some "Backup run recorded; automated restore is intentionally not implemented.";
  }
  ok (
    record { id = db.next_id; status = run.status; validation_status = run.validation_status },
    commit_audited current_id current "backup.run.recorded" "backup_run" (some db.next_id) [] (
        store (record db.platform { backup_runs = add db.next_id run db.platform.backup_runs }) db),
  )

pub record ReportRunRequest : Type 0 where
  pub report_type : String
  pub format : String

unfoldable pub phase3_template : (String → Text) → ℕ → String → ReportTemplate
phase3_template title organization_id report_type = record {
  organization_id = organization_id;
  name = title report_type;
  report_type = report_type;
  config = ("phase", int (pos 3)) ∷ [];
}

pub record Phase3RunCreated : Type 0 where
  pub id : ℕ
  pub template_id : ℕ
  pub status : String
  pub format : String
  pub delivery : List String

-- The template is flushed before the run is made, which names it.
unfoldable pub create_phase3_report_run :
    (String → Text) → ReportRunRequest → ℕ → User → Db → Result (Phase3RunCreated × Db)
unfolding phase3_template insert_template queued_run insert_run flush
create_phase3_report_run title payload current_id current db = do
  require_permission "reports:write" current
  let template = phase3_template title current.organization_id payload.report_type
  let db' = flush (insert_template template db)
  let run = queued_run current.organization_id (some db.next_id) payload.format
  ok (
    record {
      id = db'.next_id;
      template_id = db.next_id;
      status = run.status;
      format = run.format;
      delivery = "email" ∷ "portal_download" ∷ [];
    },
    commit_audited current_id current "report.phase3.created" "report_run" (some db'.next_id)
        (("format", str (codes payload.format))
          ∷ ("report_type", str (codes payload.report_type))
          ∷ [])
        (insert_run run db'),
  )
