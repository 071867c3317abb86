-- ===== src/Examples/Operations.antt =====
-- The theorems on assets, articles, tickets and workflows at concrete inputs.
use cyclope_central.Base.{
  ◌+◌, ◌≡◌, refl, inl, inr, String, Bool, true, false, Option, none, some, [], ◌∷◌, arith, length,
  is_in, All,
}
use cyclope_central.Base.Json.{str, codes}
use cyclope_central.Session.{Table}
use cyclope_central.Session.Rows.{AllRows}
use cyclope_central.Models.Operations.{no_operations}
use cyclope_central.Database.{Db}
use cyclope_central.Operations.Assets.{
  AssetRequest, WarrantyAlerts, requested_asset, warranty_alerts,
}
use cyclope_central.Operations.Assets.Warranty.{warranty_counts_agree}
use cyclope_central.Operations.Documentation.{ArticleRequest, ArticleCreated, create_article}
use cyclope_central.Operations.Documentation.Categories.{IsCatalogue, create_article-IsCatalogue}
use cyclope_central.Operations.Tickets.{TicketRequest, TicketCreated, create_ticket}
use cyclope_central.Operations.Tenants.{IsTenantSafe}
use cyclope_central.Operations.Tenants.Steps.{Steps, creates_ticket, none_left, then_steps}
use cyclope_central.Operations.Tenants.Permitted.{IsPermitted}
use cyclope_central.Operations.Tenants.Reachable.{Steps-IsTenantSafe}
use cyclope_central.Platform.Dashboard.{OperationsDashboard, operations_dashboard, widgets_of}
use cyclope_central.Platform.Automation.{
  WorkflowRequest, WorkflowCreated, trigger_types, action_types, create_workflow,
}
use cyclope_central.Platform.Automation.Approved.{IsApproved, create_workflow-IsApproved}
use cyclope_central.Examples.{value_of, boss, office_db}

abbrev broken_laptop : TicketRequest
broken_laptop = record {
  title = "Broken";
  description = none;
  device_id = some 3;
  asset_id = none;
  company_id = none;
  alert_id = none;
  assigned_user_id = some 2;
  status = "New";
  priority = "High";
}

abbrev ticketing : TicketCreated × Db
ticketing =
    value_of (record { id = 0; title = ""; status = ""; priority = "" }, office_db)
      (create_ticket 40 broken_laptop 2 boss office_db)

office_db-IsTenantSafe : IsTenantSafe office_db
office_db-IsTenantSafe = record {
  assets = tt;
  scans = tt;
  tickets = tt;
  comments = tt;
  time_entries = tt;
  schedules = tt;
}

abbrev ticketed : Steps office_db ticketing.1
unfolding create_ticket cyclope_central.Auth.Roles.require_permission is_in
    cyclope_central.Operations.ensure_device cyclope_central.Jobs.Api.owned_device
    cyclope_central.Session.get
ticketed =
    then_steps office_db ticketing.1 ticketing.1
      (creates_ticket 2 boss office_db ticketing.1 40 broken_laptop ticketing.0 refl)
      (none_left ticketing.1)

Steps-IsTenantSafe_example : IsTenantSafe ticketing.1 × IsPermitted ticketed
Steps-IsTenantSafe_example =
    Steps-IsTenantSafe office_db ticketing.1 ticketed office_db-IsTenantSafe

-- of a device that does not exist
abbrev stray : AssetRequest
stray = record {
  asset_tag = "A-1";
  name = "Printer";
  device_id = some 99;
  serial_number = none;
  manufacturer = none;
  model = none;
  purchase_date = none;
  purchase_cost = none;
  vendor = none;
  warranty_expiration = some 10;
  assigned_user = none;
  department = none;
  location = none;
  status = "Active";
  notes = none;
}

-- an asset whose warranty ends on day 10
abbrev stocked_db : Db
stocked_db = record office_db {
  operations = record no_operations {
    assets =
        record { key = 30; stored = some (requested_asset 1 stray); live = requested_asset 1 stray }
        ∷ [];
  };
}

abbrev shown_alerts : WarrantyAlerts
shown_alerts =
    value_of (record { expiring_30_days = []; expired = [] }) (warranty_alerts 5 boss stocked_db)

abbrev shown_dashboard : OperationsDashboard
shown_dashboard =
    value_of (record { widgets = widgets_of 0 0 office_db; role_widgets = [] })
      (operations_dashboard 5 boss stocked_db)

warranty_counts_agree_example :
    length shown_alerts.expiring_30_days + length shown_alerts.expired
    ≡ shown_dashboard.widgets.warranty_expiring
unfolding warranty_alerts cyclope_central.Auth.Roles.require_permission is_in operations_dashboard
warranty_counts_agree_example =
    warranty_counts_agree 5 boss stocked_db shown_alerts shown_dashboard (refl, tt) refl refl

abbrev manual : ArticleRequest
manual = record {
  title = codes "Printer";
  body_markdown = codes "Turn it on.";
  company_id = none;
  category_name = some "Hardware";
  tags = [];
}

abbrev writing : ArticleCreated × Db
writing =
    value_of (record { id = 0; title = []; version = 0; tags = [] }, office_db)
      (create_article 40 manual 2 boss office_db)

create_article-IsCatalogue_example : IsCatalogue writing.1.operations.categories
unfolding cyclope_central.Session.Query.count create_article
    cyclope_central.Auth.Roles.require_permission is_in
create_article-IsCatalogue_example =
    create_article-IsCatalogue 40 manual 2 boss office_db writing.0 writing.1
      (record { clean = tt; unique = λ o n. omega arith }) refl

abbrev pinging : WorkflowRequest
pinging = record {
  name = "Ping";
  trigger_type = "device_offline";
  action_type = "run_approved_agent_job";
  action_config = ("job_type", str (codes "ping")) ∷ [];
  enabled = true;
}

abbrev automating : WorkflowCreated × Db
automating =
    value_of (record { id = 0; name = ""; enabled = true }, office_db)
      (create_workflow pinging 2 boss office_db)

create_workflow-IsApproved_example :
    (is_in "device_offline" trigger_types ≡ true)
    × (is_in "run_approved_agent_job" action_types ≡ true)
    × AllRows IsApproved automating.1.platform.actions
unfolding create_workflow cyclope_central.Auth.Roles.require_permission is_in
    cyclope_central.Base.Json.text_eq
create_workflow-IsApproved_example =
    create_workflow-IsApproved pinging 2 boss office_db automating.0 automating.1 tt refl
