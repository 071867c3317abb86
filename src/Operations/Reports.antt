-- ===== src/Operations/Reports.antt =====
-- The report handlers of backend/app/api/operations.py.
use cyclope_central.Base.{
  ℕ, String, Bool, false, not, ◌&&◌, Option, none, some, List, [], ◌∷◌, ◌==◌, is_in, map,
}
use cyclope_central.Base.Json.{Text, Dict, str, codes}
use cyclope_central.Http.{Result, ok, ◌>>=◌, ◌>>◌, raise_if, bad_request}
use cyclope_central.Session.{get, select, add}
use cyclope_central.Session.Query.{order_by}
use cyclope_central.Session.Owned.{owned}
use cyclope_central.Models.Tenant.{User}
use cyclope_central.Models.Operations.{ReportTemplate, ReportRun, ReportSchedule}
use cyclope_central.Database.{Db}
use cyclope_central.Auth.Roles.{require_permission}
use cyclope_central.Alerts.Evaluation.{has_text}
use cyclope_central.Operations.{store, commit_audited}

abbrev pub report_types : List String
report_types =
    "executive_summary" ∷ "device_inventory" ∷ "asset_inventory" ∷ "warranty_report"
    ∷ "alert_summary" ∷ "ticket_summary" ∷ "security_status_report" ∷ []

pub record ReportTemplateRequest : Type 0 where
  pub name : Text
  pub report_type : String
  pub config : Dict

pub record ReportRunRequest : Type 0 where
  pub template_id : Option ℕ
  pub report_type : Option String
  pub format : String

pub record ReportScheduleRequest : Type 0 where
  pub template_id : ℕ
  pub cron : String
  pub enabled : Bool
  pub email_recipients : List String

pub record TemplateListed : Type 0 where
  pub id : ℕ
  pub name : Text
  pub report_type : String
  pub config : Dict

unfoldable pub template_listed : ℕ × ReportTemplate → TemplateListed
template_listed (k, r) = record {
  id = k;
  name = r.name;
  report_type = r.report_type;
  config = r.config;
}

unfoldable pub list_report_templates :
    (Text → Text → Bool) → User → Db → Result (List TemplateListed)
unfolding template_listed
list_report_templates collates current db = do
  require_permission "reports:read" current
  ok (
      map template_listed (
        order_by (λ a b. collates a.1.name b.1.name)
          (select (λ k r. r.organization_id == current.organization_id) db.operations.templates)))

unfoldable pub insert_template : ReportTemplate → Db → Db
unfolding store
insert_template template db =
    store (record db.operations { templates = add db.next_id template db.operations.templates }) db

pub record TemplateCreated : Type 0 where
  pub id : ℕ
  pub name : Text
  pub report_type : String

unfoldable pub create_report_template :
    ReportTemplateRequest → ℕ → User → Db → Result (TemplateCreated × Db)
unfolding insert_template
create_report_template payload current_id current db = do
  require_permission "reports:write" current
  raise_if (not (is_in payload.report_type report_types)) (bad_request "Unsupported report type")
  let template : ReportTemplate = record {
    organization_id = current.organization_id;
    name = payload.name;
    report_type = payload.report_type;
    config = payload.config;
  }
  ok (
    record { id = db.next_id; name = template.name; report_type = template.report_type },
    commit_audited current_id current "report.template.created" "report_template" (some db.next_id)
        (("report_type", str (codes template.report_type)) ∷ []) (insert_template template db),
  )

-- a report type is given, and is none of the types
unfoldable pub is_unsupported : Option String → Bool
unfolding has_text
is_unsupported none = false
is_unsupported (some report_type) =
    has_text (some report_type) && not (is_in report_type report_types)

unfoldable pub queued_run : ℕ → Option ℕ → String → ReportRun
queued_run organization_id template_id format = record {
  organization_id = organization_id;
  template_id = template_id;
  status = "queued";
  format = format;
}

unfoldable pub insert_run : ReportRun → Db → Db
unfolding store
insert_run run db = store (record db.operations { runs = add db.next_id run db.operations.runs }) db

pub record RunCreated : Type 0 where
  pub id : ℕ
  pub status : String
  pub format : String

unfoldable pub create_report_run : ReportRunRequest → ℕ → User → Db → Result (RunCreated × Db)
unfolding is_unsupported queued_run insert_run
create_report_run payload current_id current db = do
  require_permission "reports:write" current
  raise_if (is_unsupported payload.report_type) (bad_request "Unsupported report type")
  let run = queued_run current.organization_id payload.template_id payload.format
  ok (
    record { id = db.next_id; status = run.status; format = run.format },
    commit_audited current_id current "report.run.created" "report_run" (some db.next_id)
        (("format", str (codes run.format)) ∷ []) (insert_run run db),
  )

-- a template of the caller's organization, or 404
unfoldable pub owned_template : ℕ → ℕ → Db → Result ReportTemplate
unfolding owned
owned_template template_id organization_id db =
    owned (λ row. row.organization_id) "Report template not found" organization_id
      (get template_id db.operations.templates)

pub record ScheduleCreated : Type 0 where
  pub id : ℕ
  pub template_id : ℕ
  pub enabled : Bool

unfoldable pub create_report_schedule :
    ReportScheduleRequest → ℕ → User → Db → Result (ScheduleCreated × Db)
unfolding store
create_report_schedule payload current_id current db = do
  require_permission "reports:write" current
  template ← owned_template payload.template_id current.organization_id db
  let schedule : ReportSchedule = record {
    organization_id = current.organization_id;
    template_id = payload.template_id;
    cron = payload.cron;
    enabled = payload.enabled;
    email_recipients = payload.email_recipients;
  }
  ok (
    record { id = db.next_id; template_id = payload.template_id; enabled = schedule.enabled },
    commit_audited current_id current "report.schedule.created" "report_schedule" (some db.next_id)
        []
        (store
          (record db.operations { schedules = add db.next_id schedule db.operations.schedules })
          db),
  )
