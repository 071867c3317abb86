-- ===== src/Platform/Automation.antt =====
-- The workflow handlers of backend/app/api/phase3.py.
pub mod Approved
use cyclope_central.Base.{
  ℕ, ◌+◌, String, Bool, true, false, not, ◌&&◌, ◌||◌, Option, none, some, List, [], ◌∷◌, ◌==◌,
  is_in, str_eq, if◌then◌else◌,
}
use cyclope_central.Base.Json.{
  Text, Dict, JsonValue, null, bool, int, real, str, compound, codes, text_eq,
}
use cyclope_central.Base.Json as Json
use cyclope_central.Http.{
  Result, ok, err, ◌>>=◌, ◌>>◌, raise_if, bad_request, not_found, value_error,
}
use cyclope_central.Session.{get, add}
use cyclope_central.Session.Owned.{owned}
use cyclope_central.Models.Tenant.{User}
use cyclope_central.Models.Platform.{Workflow, WorkflowTrigger, WorkflowAction, WorkflowExecution}
use cyclope_central.Database.{Db, flush}
use cyclope_central.Auth.Roles.{require_permission}
use cyclope_central.Jobs.Payload.{allowed_job_types}
use cyclope_central.Operations.{commit_audited}
use cyclope_central.Platform.{store}

abbrev pub trigger_types : List String
trigger_types =
    "alert_created" ∷ "ticket_created" ∷ "device_offline" ∷ "warranty_expiring"
    ∷ "discovery_complete" ∷ []

abbrev pub action_types : List String
action_types =
    "create_ticket" ∷ "send_notification" ∷ "run_approved_agent_job" ∷ "generate_report" ∷ []

pub record WorkflowRequest : Type 0 where
  pub name : String
  pub trigger_type : String
  pub action_type : String
  pub action_config : Dict
  pub enabled : Bool

abbrev unapproved : String
unapproved = "Workflow job action must use an approved agent job type"

-- `value in {…}` for a JSON value and a set of texts
unfoldable pub is_one_of : Text → List String → Bool
is_one_of t [] = false
is_one_of t (s ∷ rest) = text_eq t (codes s) || is_one_of t rest

-- `if action_config.get("job_type") not in ALLOWED_JOB_TYPES: raise ...`; a list or a dict has no hash,
-- and looking it up raises a `TypeError`
unfoldable pub approve : Option JsonValue → Result (Unit {0})
unfolding is_one_of
approve (some (str job_type)) =
    raise_if (not (is_one_of job_type allowed_job_types)) (bad_request unapproved)
approve (some (compound printed)) = err (value_error "unhashable type")
approve _ = err (bad_request unapproved)

-- the check of a workflow whose action is to run a job
unfoldable pub approve_action : String → Dict → Result (Unit {0})
unfolding approve
approve_action action_type action_config =
    if str_eq action_type "run_approved_agent_job"
    then approve (Json.get "job_type" action_config)
    else ok tt

unfoldable pub insert_workflow : Workflow → Db → Db
unfolding store flush
insert_workflow workflow db =
    flush
      (store (record db.platform { workflows = add db.next_id workflow db.platform.workflows }) db)

unfoldable pub insert_trigger : WorkflowTrigger → Db → Db
unfolding store
insert_trigger trigger db =
    store (record db.platform { triggers = add db.next_id trigger db.platform.triggers }) db

unfoldable pub insert_action : WorkflowAction → Db → Db
unfolding store
insert_action action db =
    store (record db.platform { actions = add db.next_id action db.platform.actions }) db

-- the trigger and the action of a workflow
unfoldable pub insert_parts : ℕ → ℕ → WorkflowRequest → Db → Db
unfolding insert_trigger insert_action
insert_parts organization_id workflow_id payload db =
    insert_action
      (record {
        organization_id = organization_id;
        workflow_id = workflow_id;
        action_type = payload.action_type;
        config = payload.action_config;
      })
      (insert_trigger
        (record {
          organization_id = organization_id;
          workflow_id = workflow_id;
          trigger_type = payload.trigger_type;
          config = [];
        })
        db)

pub record WorkflowCreated : Type 0 where
  pub id : ℕ
  pub name : String
  pub enabled : Bool

unfoldable pub create_workflow : WorkflowRequest → ℕ → User → Db → Result (WorkflowCreated × Db)
unfolding approve_action insert_workflow insert_parts
create_workflow payload current_id current db = do
  require_permission "automation:manage" current
  raise_if
      (not (is_in payload.trigger_type trigger_types)
        || not (is_in payload.action_type action_types))
      (bad_request "Unsupported workflow trigger or action")
  approve_action payload.action_type payload.action_config
  let workflow : Workflow = record {
    organization_id = current.organization_id;
    name = payload.name;
    enabled = payload.enabled;
  }
  ok (
    record { id = db.next_id; name = workflow.name; enabled = workflow.enabled },
    commit_audited current_id current "workflow.created" "workflow" (some db.next_id)
        (("trigger", str (codes payload.trigger_type))
          ∷ ("action", str (codes payload.action_type))
          ∷ [])
        (insert_parts current.organization_id db.next_id payload (insert_workflow workflow db)),
  )

-- a workflow of the caller's organization, or 404
unfoldable pub owned_workflow : ℕ → ℕ → Db → Result Workflow
unfolding owned
owned_workflow workflow_id organization_id db =
    owned (λ row. row.organization_id) "Workflow not found" organization_id
      (get workflow_id db.platform.workflows)

unfoldable pub insert_execution : WorkflowExecution → Db → Db
unfolding store
insert_execution execution db =
    store (record db.platform { executions = add db.next_id execution db.platform.executions }) db

pub record ExecutionCreated : Type 0 where
  pub id : ℕ
  pub workflow_id : ℕ
  pub status : String

unfoldable pub execute_workflow : ℕ → ℕ → User → Db → Result (ExecutionCreated × Db)
unfolding insert_execution
execute_workflow workflow_id current_id current db = do
  require_permission "automation:manage" current
  workflow ← owned_workflow workflow_id current.organization_id db
  let execution : WorkflowExecution = record {
    organization_id = current.organization_id;
    workflow_id = workflow_id;
    status = "queued";
    trigger_payload = ("manual", bool true) ∷ [];
  }
  ok (
    record { id = db.next_id; workflow_id = workflow_id; status = execution.status },
    commit_audited current_id current "workflow.execution.created" "workflow" (some workflow_id) []
        (insert_execution execution db),
  )
