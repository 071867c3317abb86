-- ===== src/Operations/Tenants/Permitted.antt =====
-- Which role may send a request of backend/app/api/operations.py.
use cyclope_central.Base.{String, is_in, ◌≡◌, true}
use cyclope_central.Http.{Result, ok, ◌>>=◌, >>=-eq-ok}
use cyclope_central.Models.Tenant.{User}
use cyclope_central.Database.{Db}
use cyclope_central.Auth.Roles.{role_permissions, require_permission}
use cyclope_central.Jobs.Api.Tenants.{require_permission_sound}
use cyclope_central.Operations.Assets.{create_asset}
use cyclope_central.Operations.Documentation.{create_company, create_article}
use cyclope_central.Operations.Discovery.{create_scan, create_discovered}
use cyclope_central.Operations.Tickets.{create_ticket, add_ticket_comment, add_ticket_time}
use cyclope_central.Operations.Reports.{
  create_report_template, create_report_run, create_report_schedule,
}
use cyclope_central.Operations.Assistant.{ai_query}
use cyclope_central.Operations.Tenants.Steps.{
  Step, Steps, creates_asset, creates_scan, creates_ticket, comments, adds_time, schedules,
  creates_template, runs_report, creates_company, discovers, writes_article, asks, none_left,
  then_steps,
}

abbrev sender : {db db' : Db} → Step db db' → User
sender (creates_asset k current db db' payload asset h) = current
sender (creates_scan k current db db' created payload scan h) = current
sender (creates_ticket k current db db' created payload ticket h) = current
sender (comments k current db db' ticket_id payload comment h) = current
sender (adds_time k current db db' ticket_id payload entry h) = current
sender (schedules k current db db' payload schedule h) = current
sender (creates_template k current db db' payload template h) = current
sender (runs_report k current db db' payload run h) = current
sender (creates_company k current db db' payload company h) = current
sender (discovers k current db db' now payload found h) = current
sender (writes_article k current db db' now payload article h) = current
sender (asks k current db db' lower today query answer h) = current

-- the permission that the request needs
abbrev needed_permission : {db db' : Db} → Step db db' → String
needed_permission (creates_asset k current db db' payload asset h) = "assets:write"
needed_permission (creates_scan k current db db' created payload scan h) = "discovery:write"
needed_permission (creates_ticket k current db db' created payload ticket h) = "tickets:write"
needed_permission (comments k current db db' ticket_id payload comment h) = "tickets:write"
needed_permission (adds_time k current db db' ticket_id payload entry h) = "tickets:write"
needed_permission (schedules k current db db' payload schedule h) = "reports:write"
needed_permission (creates_template k current db db' payload template h) = "reports:write"
needed_permission (runs_report k current db db' payload run h) = "reports:write"
needed_permission (creates_company k current db db' payload company h) = "documentation:write"
needed_permission (discovers k current db db' now payload found h) = "discovery:write"
needed_permission (writes_article k current db db' now payload article h) = "documentation:write"
needed_permission (asks k current db db' lower today query answer h) = "ai:read"

-- The role of the sender grants it.
abbrev IsAllowed : {db db' : Db} → Step db db' → Type 0
IsAllowed step = is_in (needed_permission step) (role_permissions (sender step).role) ≡ true

-- of every request
abbrev pub IsPermitted : {db db' : Db} → Steps db db' → Type 0
IsPermitted (none_left db) = Unit
IsPermitted (then_steps db db' db'' step rest) = IsAllowed step × IsPermitted rest

guarded :
    {Response : Type 0} (permission : String) (current : User) (next : Unit {0} → Result Response)
    {response : Response}
    → (require_permission permission current >>= next) ≡ ok response
    → is_in permission (role_permissions current.role) ≡ true
guarded permission current next h =
    (let (u, p, g) = >>=-eq-ok (require_permission permission current) next h in
      require_permission_sound permission current u p)

Step-IsAllowed : {db db' : Db} (step : Step db db') → IsAllowed step
unfolding create_asset create_scan create_ticket add_ticket_comment add_ticket_time
    create_report_schedule create_report_template create_report_run create_company create_discovered
    create_article ai_query
Step-IsAllowed (creates_asset k current db db' payload asset h) = guarded "assets:write" current _ h
Step-IsAllowed (creates_scan k current db db' created payload scan h) =
    guarded "discovery:write" current _ h
Step-IsAllowed (creates_ticket k current db db' created payload ticket h) =
    guarded "tickets:write" current _ h
Step-IsAllowed (comments k current db db' ticket_id payload comment h) =
    guarded "tickets:write" current _ h
Step-IsAllowed (adds_time k current db db' ticket_id payload entry h) =
    guarded "tickets:write" current _ h
Step-IsAllowed (schedules k current db db' payload schedule h) = guarded "reports:write" current _ h
Step-IsAllowed (creates_template k current db db' payload template h) =
    guarded "reports:write" current _ h
Step-IsAllowed (runs_report k current db db' payload run h) = guarded "reports:write" current _ h
Step-IsAllowed (creates_company k current db db' payload company h) =
    guarded "documentation:write" current _ h
Step-IsAllowed (discovers k current db db' now payload found h) =
    guarded "discovery:write" current _ h
Step-IsAllowed (writes_article k current db db' now payload article h) =
    guarded "documentation:write" current _ h
Step-IsAllowed (asks k current db db' lower today query answer h) = guarded "ai:read" current _ h

pub Steps-IsPermitted : (db db' : Db) (steps : Steps db db') → IsPermitted steps
Steps-IsPermitted db db' (none_left d) = tt
Steps-IsPermitted db db' (then_steps d e f step rest) =
    (Step-IsAllowed step, Steps-IsPermitted e f rest)
