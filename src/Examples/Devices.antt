-- ===== src/Examples/Devices.antt =====
-- The theorems on the status of devices, the dashboards, portal users and settings at concrete inputs.
use cyclope_central.Base.{
  ℕ, ◌+◌, ◌≤◌, ◌≡◌, refl, String, Bool, true, false, Option, none, some, List, [], ◌∷◌, ◌++◌, arith,
}
use cyclope_central.Base.Json.{Text, codes}
use cyclope_central.Http.{ok}
use cyclope_central.Session.Query.{count}
use cyclope_central.Database.{Db}
use cyclope_central.Auth.Passwords.{hash_password, verify_password}
use cyclope_central.Devices.{DeviceSummary, list_devices}
use cyclope_central.Devices.Summary.{DashboardSummary, dashboard_summary}
use cyclope_central.Devices.Summary.Agreement.{dashboards_agree}
use cyclope_central.Devices.Sync.Listed.{
  is_seen, is_silent, listing_refreshes_dashboard, silent_devices_go_offline,
}
use cyclope_central.Platform.Dashboard.{OperationsDashboard, operations_dashboard, widgets_of}
use cyclope_central.Platform.Portal.{
  PortalUserCreateRequest, PortalUserResponse, create_portal_user, new_portal_user, portal_login,
}
use cyclope_central.Platform.Portal.SignIn.{created_user_signs_in}
use cyclope_central.Settings.{Settings, with_jwt_secret, validate_production_settings}
use cyclope_central.Settings.Production.{IsProductionReady, validated-IsProductionReady}
use cyclope_central.Examples.{value_of, test_hash, test_parse, boss, office_db}

abbrev no_summary : DashboardSummary
no_summary = record {
  total_devices = 0;
  online_devices = 0;
  offline_devices = 0;
  active_warning_alerts = 0;
  active_critical_alerts = 0;
  devices_needing_attention = 0;
  recent_alerts = [];
}

abbrev summary_now : DashboardSummary
summary_now = value_of no_summary (dashboard_summary boss office_db)

abbrev dashboard_now : OperationsDashboard
dashboard_now =
    value_of (record { widgets = widgets_of 0 0 office_db; role_widgets = [] })
      (operations_dashboard 5 boss office_db)

dashboards_agree_example :
    (summary_now.online_devices + summary_now.offline_devices ≡ summary_now.total_devices)
    × (summary_now.total_devices ≡ dashboard_now.widgets.total_devices)
    × (summary_now.offline_devices ≡ dashboard_now.widgets.offline_devices)
    × (summary_now.active_warning_alerts + summary_now.active_critical_alerts
        ≤ dashboard_now.widgets.active_alerts)
unfolding dashboard_summary cyclope_central.Auth.Roles.require_permission cyclope_central.Base.is_in
    operations_dashboard
dashboards_agree_example = dashboards_agree 5 boss office_db summary_now dashboard_now refl refl

abbrev any_order : String → String → Bool
any_order a b = true

-- The laptop was seen at time 5, a limit of one second has passed.
abbrev listing : List DeviceSummary × Db
listing = value_of ([], office_db) (list_devices 1 2000000 any_order boss office_db)

abbrev summary_later : DashboardSummary
summary_later = value_of no_summary (dashboard_summary boss listing.1)

listing_refreshes_dashboard_example :
    (summary_later.online_devices ≡ count (is_seen 1 2000000 1) office_db.devices)
    × (summary_later.offline_devices ≡ count (is_silent 1 2000000 1) office_db.devices)
unfolding list_devices cyclope_central.Auth.Roles.require_permission cyclope_central.Base.is_in
    dashboard_summary
listing_refreshes_dashboard_example =
    listing_refreshes_dashboard 1 2000000 any_order boss office_db (refl, tt) (tt, tt) listing.0
      listing.1 summary_later refl refl

silent_devices_go_offline_example :
    (summary_later.online_devices ≡ 0)
    × (summary_later.offline_devices ≡ summary_later.total_devices)
unfolding list_devices cyclope_central.Auth.Roles.require_permission cyclope_central.Base.is_in
    dashboard_summary
silent_devices_go_offline_example =
    silent_devices_go_offline 1 2000000 5 (omega arith) any_order boss office_db listing.0 listing.1
      summary_later (refl, tt) (tt, tt) (omega arith, tt) refl refl

-- a derivation that is good enough for tests: the salt
abbrev stretched : Text → List ℕ → ℕ → List ℕ
stretched password salt rounds = salt

abbrev hashed : Text → Text
hashed password = hash_password stretched test_parse password (1 ∷ 2 ∷ [])

abbrev customer : PortalUserCreateRequest
customer = record {
  email = codes "carol@customer.example";
  display_name = "Carol";
  password = codes "a long password";
  role_name = "customer_user";
}

abbrev registering : PortalUserResponse × Db
registering =
    value_of
      (record { id = 0; portal_user = new_portal_user hashed 0 0 customer; role = "" }, office_db)
      (create_portal_user hashed customer 2 boss office_db)

created_user_signs_in_example :
    (db'' : Db) × (portal_login test_hash
        (verify_password stretched test_parse)
        50
        (codes "token")
        (record { email = customer.email; password = customer.password })
        registering.1
      ≡ ok (
        record {
          portal_token = codes "token";
          id = registering.0.id;
          email = customer.email;
          organization_id = 1;
        },
        db'',
      ))
unfolding cyclope_central.Session.scalar create_portal_user
    cyclope_central.Auth.Roles.require_permission cyclope_central.Base.is_in
created_user_signs_in_example =
    created_user_signs_in stretched test_parse test_hash (1 ∷ 2 ∷ []) customer 2 boss office_db
      registering.0 registering.1 50 (codes "token") (omega arith, (omega arith, tt)) refl tt refl
      refl

abbrev same_text : Text → Text
same_text t = t

abbrev service : Settings
service = record {
  environment = codes "production";
  database_url = codes "postgresql://db/cyclope";
  redis_url = codes "redis://cache";
  cors_allowed_origins = codes "https://cyclope.org";
  jwt_secret_key = codes "old";
  jwt_secret = codes "0123456789abcdef0123456789abcdef";
  token_hash_pepper = codes "fedcba9876543210fedcba9876543210";
}

abbrev checked : Settings
checked = value_of service (validate_production_settings same_text service)

validated-IsProductionReady_example :
    (checked ≡ with_jwt_secret same_text service) × IsProductionReady same_text checked
unfolding cyclope_central.Base.Json.text_eq validate_production_settings
validated-IsProductionReady_example =
    validated-IsProductionReady same_text service checked refl refl
