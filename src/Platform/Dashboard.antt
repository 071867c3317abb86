-- ===== src/Platform/Dashboard.antt =====
-- The dashboard handlers of backend/app/api/phase3.py. `today` is the date in UTC as a number of days.
use cyclope_central.Base.{
  ℕ, ◌+◌, String, Bool, not, ◌&&◌, Option, none, some, List, [], ◌∷◌, ◌==◌, is_in, str_eq,
  if◌then◌else◌, length,
}
use cyclope_central.Base.Json.{Dict}
use cyclope_central.Http.{Result, ok, ◌>>◌}
use cyclope_central.Session.{scalar, add, write}
use cyclope_central.Session.Query.{count}
use cyclope_central.Models.Tenant.{User}
use cyclope_central.Models.Alert.{AlertStatus, Alert}
use cyclope_central.Models.Remote.{RemoteSessionAudit}
use cyclope_central.Models.Operations.{Ticket}
use cyclope_central.Models.Platform.{DashboardPreference}
use cyclope_central.Database.{Db, flush}
use cyclope_central.Auth.Roles.{require_permission}
use cyclope_central.Alerts.Api.{status_eq}
use cyclope_central.Operations.{audit}
use cyclope_central.Operations.Assistant.{is_offline, warranty_ends_by}
use cyclope_central.Platform.{store}

pub record Widgets : Type 0 where
  pub total_devices : ℕ
  pub offline_devices : ℕ
  pub active_alerts : ℕ
  pub open_tickets : ℕ
  pub discovered_devices : ℕ
  pub assets : ℕ
  pub warranty_expiring : ℕ
  pub recent_remote_sessions : ℕ
  pub recent_documentation_updates : ℕ
  pub ai_insights : ℕ
  pub report_runs : ℕ

pub record OperationsDashboard : Type 0 where
  pub widgets : Widgets
  pub role_widgets : List String

abbrev technician_widgets : List String
technician_widgets =
    "device_health" ∷ "active_alerts" ∷ "open_tickets" ∷ "discovery_results" ∷ "warranty_summary"
    ∷ []

abbrev admin_widgets : List String
admin_widgets =
    "device_health" ∷ "active_alerts" ∷ "open_tickets" ∷ "asset_summary" ∷ "report_status"
    ∷ "platform_health" ∷ []

abbrev owner_widgets : List String
owner_widgets =
    "device_health" ∷ "active_alerts" ∷ "open_tickets" ∷ "asset_summary" ∷ "recent_remote_sessions"
    ∷ "ai_insights" ∷ "report_status" ∷ "platform_health" ∷ []

abbrev viewer_widgets : List String
viewer_widgets = "device_health" ∷ "active_alerts" ∷ "open_tickets" ∷ "asset_summary" ∷ []

-- `role_widgets.get(role, role_widgets["viewer"])`
unfoldable pub role_widgets_of : String → List String
role_widgets_of role =
    if str_eq role "technician"
    then technician_widgets
    else if str_eq role "admin"
    then admin_widgets
    else if str_eq role "owner"
    then owner_widgets
    else viewer_widgets

unfoldable pub is_active_alert : ℕ → ℕ → Alert → Bool
unfolding status_eq
is_active_alert organization_id k alert =
    (alert.organization_id == organization_id) && status_eq alert.status AlertStatus.active

unfoldable pub is_open_ticket : ℕ → ℕ → Ticket → Bool
is_open_ticket organization_id k ticket =
    (ticket.organization_id == organization_id)
    && not (is_in ticket.status ("Resolved" ∷ "Closed" ∷ []))

-- the rows of the audit of sessions, which are only ever added and committed at once
unfoldable pub sessions_of : ℕ → List RemoteSessionAudit → List RemoteSessionAudit
sessions_of organization_id [] = []
sessions_of organization_id (s ∷ rest) =
    let later = sessions_of organization_id rest in
    if s.organization_id == organization_id then s ∷ later else later

unfoldable pub widgets_of : ℕ → ℕ → Db → Widgets
unfolding is_offline warranty_ends_by is_active_alert is_open_ticket sessions_of
widgets_of today org db = record {
  total_devices = count (λ k d. d.organization_id == org) db.devices;
  offline_devices = count (is_offline org) db.devices;
  active_alerts = count (is_active_alert org) db.alerts;
  open_tickets = count (is_open_ticket org) db.operations.tickets;
  discovered_devices = count (λ k d. d.organization_id == org) db.operations.discovered;
  assets = count (λ k a. a.organization_id == org) db.operations.assets;
  warranty_expiring = count (warranty_ends_by org (today + 30)) db.operations.assets;
  recent_remote_sessions = length (sessions_of org db.remote_audits);
  recent_documentation_updates = count (λ k a. a.organization_id == org) db.operations.articles;
  ai_insights = count (λ k i. i.organization_id == org) db.operations.insights;
  report_runs = count (λ k r. r.organization_id == org) db.operations.runs;
}

unfoldable pub operations_dashboard : ℕ → User → Db → Result OperationsDashboard
unfolding widgets_of role_widgets_of
operations_dashboard today current db = do
  require_permission "dashboard:read" current
  ok (record {
    widgets = widgets_of today current.organization_id db;
    role_widgets = role_widgets_of current.role;
  })

pub record DashboardPreferenceRequest : Type 0 where
  pub layout : Dict
  pub role_widgets : List String

unfoldable pub is_preference_of : ℕ → ℕ → ℕ → DashboardPreference → Bool
is_preference_of organization_id user_id k pref =
    (pref.organization_id == organization_id) && (pref.user_id == user_id)

unfoldable pub preference_of : Option (ℕ × DashboardPreference) → DashboardPreferenceRequest
preference_of none = record { layout = []; role_widgets = [] }
preference_of (some (k, pref)) = record { layout = pref.layout; role_widgets = pref.role_widgets }

unfoldable pub get_dashboard_preferences : ℕ → User → Db → Result DashboardPreferenceRequest
unfolding is_preference_of preference_of
get_dashboard_preferences current_id current db = do
  require_permission "dashboard:read" current
  ok (
      preference_of
        (scalar (is_preference_of current.organization_id current_id) db.platform.preferences))

unfoldable pub write_preference : ℕ → DashboardPreference → Db → Db
write_preference k pref db = record db {
  platform = record db.platform { preferences = write k pref db.platform.preferences };
}

unfoldable pub insert_preference : DashboardPreference → Db → Db
unfolding store
insert_preference pref db =
    store (record db.platform { preferences = add db.next_id pref db.platform.preferences }) db

-- The audit names the preference by its key, which a new one gets from the flush of the commit only: the
-- target of its audit is the text "None", here `none`.
unfoldable pub save_preference :
    DashboardPreferenceRequest → ℕ → User → Option (ℕ × DashboardPreference) → Db → Db
unfolding audit write_preference insert_preference
save_preference payload current_id current none db =
    audit current_id current "dashboard.preferences.saved" "dashboard_preference" none [] (
      insert_preference
        (record {
          organization_id = current.organization_id;
          user_id = current_id;
          layout = payload.layout;
          role_widgets = payload.role_widgets;
        })
        db)
save_preference payload current_id current (some (k, pref)) db =
    audit current_id current "dashboard.preferences.saved" "dashboard_preference" (some k) [] (
      write_preference k
        (record pref { layout = payload.layout; role_widgets = payload.role_widgets }) db)

unfoldable pub save_dashboard_preferences :
    DashboardPreferenceRequest → ℕ → User → Db → Result (DashboardPreferenceRequest × Db)
unfolding is_preference_of save_preference flush
save_dashboard_preferences payload current_id current db = do
  require_permission "dashboard:read" current
  let pref = scalar (is_preference_of current.organization_id current_id) db.platform.preferences
  ok (payload, flush (save_preference payload current_id current pref db))
