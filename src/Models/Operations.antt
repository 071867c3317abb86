-- ===== src/Models/Operations.antt =====
-- The rows of backend/app/models/phase2.py that the handlers write or read, and the record of their
-- tables. Each row is added by a handler and never changed. A date is a number of days, a Decimal is
-- kept by its `str()`. Columns that no handler sets are left out.
use cyclope_central.Base.{ℕ, String, Bool, Option, List, []}
use cyclope_central.Base.Int.{ℤ}
use cyclope_central.Base.Json.{Dict, Text}
use cyclope_central.Session
use cyclope_central.Session.{Table}

pub record Asset : Type 0 where
  pub organization_id : ℕ
  pub device_id : Option ℕ
  pub asset_tag : String
  pub name : String
  pub serial_number : Option String
  pub manufacturer : Option String
  pub model : Option String
  pub purchase_date : Option ℕ
  pub purchase_cost : Option String
  pub vendor : Option String
  pub warranty_expiration : Option ℕ
  pub assigned_user : Option String
  pub department : Option String
  pub location : Option String
  pub status : String
  pub notes : Option String

pub record Company : Type 0 where
  pub organization_id : ℕ
  pub name : String
  pub notes : Option String

pub record DocumentationCategory : Type 0 where
  pub organization_id : ℕ
  pub name : String

pub record DocumentationArticle : Type 0 where
  pub organization_id : ℕ
  pub company_id : Option ℕ
  pub category_id : Option ℕ
  pub title : Text
  pub body_markdown : Text
  pub tags : List String
  pub version : ℕ
  pub updated_at : ℕ

pub record DiscoveryScan : Type 0 where
  pub organization_id : ℕ
  pub device_id : Option ℕ
  pub scan_type : String
  pub status : String
  pub scheduled_for : Option ℕ
  pub created_at : ℕ

pub record DiscoveredDevice : Type 0 where
  pub organization_id : ℕ
  pub ip_address : String
  pub hostname : Option String
  pub mac_address : Option String
  pub vendor : Option String
  pub open_ports : List ℤ
  pub snmp_data : Dict
  pub last_seen_at : ℕ

pub record Ticket : Type 0 where
  pub organization_id : ℕ
  pub device_id : Option ℕ
  pub asset_id : Option ℕ
  pub company_id : Option ℕ
  pub alert_id : Option ℕ
  pub assigned_user_id : Option ℕ
  pub title : String
  pub description : Option String
  pub status : String
  pub priority : String
  pub created_at : ℕ

pub record TicketComment : Type 0 where
  pub organization_id : ℕ
  pub ticket_id : ℕ
  pub author_user_id : Option ℕ
  pub body : String
  pub internal : Bool

pub record TicketTimeEntry : Type 0 where
  pub organization_id : ℕ
  pub ticket_id : ℕ
  pub user_id : Option ℕ
  pub minutes : ℕ
  pub notes : Option String

pub record AiConversation : Type 0 where
  pub organization_id : ℕ
  pub user_id : Option ℕ
  pub title : Text

pub record AiMessage : Type 0 where
  pub organization_id : ℕ
  pub conversation_id : ℕ
  pub role : String
  pub content : Text

pub record AiInsight : Type 0 where
  pub organization_id : ℕ
  pub insight_type : String
  pub summary : Text
  pub metadata_json : Dict

pub record ReportTemplate : Type 0 where
  pub organization_id : ℕ
  pub name : Text
  pub report_type : String
  pub config : Dict

pub record ReportRun : Type 0 where
  pub organization_id : ℕ
  pub template_id : Option ℕ
  pub status : String
  pub format : String

pub record ReportSchedule : Type 0 where
  pub organization_id : ℕ
  pub template_id : ℕ
  pub cron : String
  pub enabled : Bool
  pub email_recipients : List String

pub record Operations : Type 0 where
  pub assets : Table Asset
  pub companies : Table Company
  pub categories : Table DocumentationCategory
  pub articles : Table DocumentationArticle
  pub scans : Table DiscoveryScan
  pub discovered : Table DiscoveredDevice
  pub tickets : Table Ticket
  pub comments : Table TicketComment
  pub time_entries : Table TicketTimeEntry
  pub conversations : Table AiConversation
  pub messages : Table AiMessage
  pub insights : Table AiInsight
  pub templates : Table ReportTemplate
  pub runs : Table ReportRun
  pub schedules : Table ReportSchedule

unfoldable pub flush_operations : Operations → Operations
flush_operations o = record o {
  assets = Session.flush o.assets;
  companies = Session.flush o.companies;
  categories = Session.flush o.categories;
  articles = Session.flush o.articles;
  scans = Session.flush o.scans;
  discovered = Session.flush o.discovered;
  tickets = Session.flush o.tickets;
  comments = Session.flush o.comments;
  time_entries = Session.flush o.time_entries;
  conversations = Session.flush o.conversations;
  messages = Session.flush o.messages;
  insights = Session.flush o.insights;
  templates = Session.flush o.templates;
  runs = Session.flush o.runs;
  schedules = Session.flush o.schedules;
}

abbrev pub no_operations : Operations
no_operations = record {
  assets = [];
  companies = [];
  categories = [];
  articles = [];
  scans = [];
  discovered = [];
  tickets = [];
  comments = [];
  time_entries = [];
  conversations = [];
  messages = [];
  insights = [];
  templates = [];
  runs = [];
  schedules = [];
}
