-- ===== src/Operations/Tenants/Reachable.antt =====
-- What the requests of backend/app/api/operations.py keep of the database, and who may send them.
use cyclope_central.Database.{Db}
use cyclope_central.Operations.Tenants.Steps.{
  Step, Steps, creates_asset, creates_scan, creates_ticket, comments, adds_time, schedules,
  creates_template, runs_report, creates_company, discovers, writes_article, asks, none_left,
  then_steps,
}
use cyclope_central.Operations.Tenants.Permitted.{IsPermitted, Steps-IsPermitted}
use cyclope_central.Operations.Tenants.{IsTenantSafe}
use cyclope_central.Operations.Tenants.Checked.{
  create_asset-IsTenantSafe, create_scan-IsTenantSafe, create_ticket-IsTenantSafe,
  add_ticket_comment-IsTenantSafe, add_ticket_time-IsTenantSafe,
  create_report_schedule-IsTenantSafe,
}
use cyclope_central.Operations.Tenants.Unchecked.{
  create_report_template-IsTenantSafe, create_report_run-IsTenantSafe, create_company-IsTenantSafe,
  create_discovered-IsTenantSafe, create_article-IsTenantSafe, ai_query-IsTenantSafe,
}

Step-IsTenantSafe : {db db' : Db} → Step db db' → IsTenantSafe db → IsTenantSafe db'
Step-IsTenantSafe (creates_asset k current db db' payload asset h) s =
    create_asset-IsTenantSafe k current db db' s payload asset h
Step-IsTenantSafe (creates_scan k current db db' created payload scan h) s =
    create_scan-IsTenantSafe k current db db' s created payload scan h
Step-IsTenantSafe (creates_ticket k current db db' created payload ticket h) s =
    create_ticket-IsTenantSafe k current db db' s created payload ticket h
Step-IsTenantSafe (comments k current db db' ticket_id payload comment h) s =
    add_ticket_comment-IsTenantSafe k current db db' s ticket_id payload comment h
Step-IsTenantSafe (adds_time k current db db' ticket_id payload entry h) s =
    add_ticket_time-IsTenantSafe k current db db' s ticket_id payload entry h
Step-IsTenantSafe (schedules k current db db' payload schedule h) s =
    create_report_schedule-IsTenantSafe k current db db' s payload schedule h
Step-IsTenantSafe (creates_template k current db db' payload template h) s =
    create_report_template-IsTenantSafe k current db db' s payload template h
Step-IsTenantSafe (runs_report k current db db' payload run h) s =
    create_report_run-IsTenantSafe k current db db' s payload run h
Step-IsTenantSafe (creates_company k current db db' payload company h) s =
    create_company-IsTenantSafe k current db db' s payload company h
Step-IsTenantSafe (discovers k current db db' now payload found h) s =
    create_discovered-IsTenantSafe k current db db' s now payload found h
Step-IsTenantSafe (writes_article k current db db' now payload article h) s =
    create_article-IsTenantSafe k current db db' s now payload article h
Step-IsTenantSafe (asks k current db db' lower today query answer h) s =
    ai_query-IsTenantSafe k current db db' s lower today query answer h

Steps-keep : (db db' : Db) → Steps db db' → IsTenantSafe db → IsTenantSafe db'
Steps-keep db db' (none_left d) s = s
Steps-keep db db' (then_steps d e f step rest) s = Steps-keep e f rest (Step-IsTenantSafe step s)

-- Creating single assets, scans, tickets, comments, times, schedules, templates, runs, companies,
-- discovered devices and articles, and asking questions, in any order and by users of any organizations,
-- keeps the rows within their organizations where it is answered: the devices of assets, scans and
-- tickets, the tickets of comments and times, and the templates of schedules belong to the organization of
-- the row that names them. Each of these requests was sent by a user whose role grants the permission that
-- it needs. The bulk import of assets is not among them: it takes the devices of its items unchecked.
pub Steps-IsTenantSafe :
    (db db' : Db) (steps : Steps db db') → IsTenantSafe db → IsTenantSafe db' × IsPermitted steps
Steps-IsTenantSafe db db' steps s = (Steps-keep db db' steps s, Steps-IsPermitted db db' steps)
