-- ===== src/Operations/Tenants/Steps.antt =====
-- The requests of backend/app/api/operations.py as steps of the database. The bulk import is left out:
-- it does not look at the devices of its assets.
use cyclope_central.Base.{ℕ, ◌≡◌}
use cyclope_central.Base.Json.{Text}
use cyclope_central.Http.{ok}
use cyclope_central.Models.Tenant.{User}
use cyclope_central.Models.Operations.{Asset}
use cyclope_central.Database.{Db}
use cyclope_central.Operations.Assets.{AssetRequest, create_asset}
use cyclope_central.Operations.Documentation.{
  CompanyResponse, ArticleCreated, CompanyRequest, ArticleRequest, create_company, create_article,
}
use cyclope_central.Operations.Discovery.{
  ScanCreated, DiscoveredCreated, DiscoveryScanRequest, DiscoveredDeviceRequest, create_scan,
  create_discovered,
}
use cyclope_central.Operations.Tickets.{
  TicketCreated, CommentCreated, TimeEntryCreated, TicketRequest, TicketCommentRequest,
  TicketTimeEntryRequest, create_ticket, add_ticket_comment, add_ticket_time,
}
use cyclope_central.Operations.Reports.{
  TemplateCreated, RunCreated, ScheduleCreated, ReportTemplateRequest, ReportRunRequest,
  ReportScheduleRequest, create_report_template, create_report_run, create_report_schedule,
}
use cyclope_central.Operations.Assistant.{AnswerResponse, ai_query}

-- A request of a user that was answered.
pub data Step : Db → Db → Type 0 where
  creates_asset :
      (k : ℕ) (current : User) (db db' : Db) (payload : AssetRequest) (asset : ℕ × Asset)
      → create_asset payload k current db ≡ ok (asset, db')
      → Step db db'
  creates_scan :
      (k : ℕ) (current : User) (db db' : Db) (created : ℕ) (payload : DiscoveryScanRequest)
      (scan : ScanCreated)
      → create_scan created payload k current db ≡ ok (scan, db')
      → Step db db'
  creates_ticket :
      (k : ℕ) (current : User) (db db' : Db) (created : ℕ) (payload : TicketRequest)
      (ticket : TicketCreated)
      → create_ticket created payload k current db ≡ ok (ticket, db')
      → Step db db'
  comments :
      (k : ℕ) (current : User) (db db' : Db) (ticket_id : ℕ) (payload : TicketCommentRequest)
      (comment : CommentCreated)
      → add_ticket_comment ticket_id payload k current db ≡ ok (comment, db')
      → Step db db'
  adds_time :
      (k : ℕ) (current : User) (db db' : Db) (ticket_id : ℕ) (payload : TicketTimeEntryRequest)
      (entry : TimeEntryCreated)
      → add_ticket_time ticket_id payload k current db ≡ ok (entry, db')
      → Step db db'
  schedules :
      (k : ℕ) (current : User) (db db' : Db) (payload : ReportScheduleRequest)
      (schedule : ScheduleCreated)
      → create_report_schedule payload k current db ≡ ok (schedule, db')
      → Step db db'
  creates_template :
      (k : ℕ) (current : User) (db db' : Db) (payload : ReportTemplateRequest)
      (template : TemplateCreated)
      → create_report_template payload k current db ≡ ok (template, db')
      → Step db db'
  runs_report :
      (k : ℕ) (current : User) (db db' : Db) (payload : ReportRunRequest) (run : RunCreated)
      → create_report_run payload k current db ≡ ok (run, db')
      → Step db db'
  creates_company :
      (k : ℕ) (current : User) (db db' : Db) (payload : CompanyRequest) (company : CompanyResponse)
      → create_company payload k current db ≡ ok (company, db')
      → Step db db'
  discovers :
      (k : ℕ) (current : User) (db db' : Db) (now : ℕ) (payload : DiscoveredDeviceRequest)
      (found : DiscoveredCreated)
      → create_discovered now payload k current db ≡ ok (found, db')
      → Step db db'
  writes_article :
      (k : ℕ) (current : User) (db db' : Db) (now : ℕ) (payload : ArticleRequest)
      (article : ArticleCreated)
      → create_article now payload k current db ≡ ok (article, db')
      → Step db db'
  asks :
      (k : ℕ) (current : User) (db db' : Db) (lower : Text → Text) (today : ℕ) (query : Text)
      (answer : AnswerResponse)
      → ai_query lower today query k current db ≡ ok (answer, db')
      → Step db db'

-- Any number of requests, by any users.
pub data Steps : Db → Db → Type 0 where
  none_left : (db : Db) → Steps db db
  then_steps : (db db' db'' : Db) → Step db db' → Steps db' db'' → Steps db db''
