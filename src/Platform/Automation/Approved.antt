-- ===== src/Platform/Automation/Approved.antt =====
-- Which jobs the workflows of backend/app/api/phase3.py may run: those of `ALLOWED_JOB_TYPES` in
-- backend/app/core/jobs.py.
use mathlib.Core.Path.{subst}
use text.Mathlib.TextPositions.{eq_refl}
use cyclope_central.Base.{
  ℕ, String, ◌≡◌, refl, true, false, not, ◌||◌, Option, none, some, List, [], ◌∷◌, arith, is_in,
  str_eq, Bool-cases, ◌⊎◌, inl, inr,
}
use cyclope_central.Base.Json.{
  Text, Dict, JsonValue, null, bool, int, real, str, compound, codes, text_eq, text_eq_iff,
}
use cyclope_central.Base.Json as Json
use cyclope_central.Http.{ok, >>=-eq-ok, state-ok, raise_if, raise_if-ok, bad_request}
use cyclope_central.Session.Rows.{AllRows, AllRows-add, AllRows-flush}
use cyclope_central.Models.Tenant.{User}
use cyclope_central.Models.Platform.{WorkflowAction, flush_platform}
use cyclope_central.Database.{Db, flush, add_audit}
use cyclope_central.Auth.Roles.{require_permission}
use cyclope_central.Jobs.Payload.{allowed_job_types}
use cyclope_central.Operations.{audit, commit_audited}
use cyclope_central.Platform.{store}
use cyclope_central.Platform.Automation.{
  WorkflowCreated, WorkflowRequest, trigger_types, action_types, is_one_of, approve, approve_action,
  insert_workflow, insert_trigger, insert_action, insert_parts, create_workflow,
}

-- The configuration of the action has one of the allowed job types.
abbrev pub HasAllowedJob : Dict → Type 0
HasAllowedJob config =
    (job_type : String) × (is_in job_type allowed_job_types ≡ true)
    × (Json.get "job_type" config ≡ some (str (codes job_type)))

-- The action runs no job, or one of an allowed type.
abbrev pub IsApproved : WorkflowAction → Type 0
IsApproved action =
    (str_eq action.action_type "run_approved_agent_job" ≡ false) ⊎ HasAllowedJob action.config

is_one_of_sound :
    (t : Text) (l : List String)
    → is_one_of t l ≡ true
    → (s : String) × (is_in s l ≡ true) × (t ≡ codes s)
unfolding is_one_of is_in
is_one_of_sound t [] h = cc
is_one_of_sound t (s ∷ rest) h = elim (Bool-cases (text_eq t (codes s))) [
  | inl b ↦ (s, rw (eq_refl s) refl, (text_eq_iff t (codes s)).0 b)
  | inr b ↦
      (let (found, i, e) = is_one_of_sound t rest (rw b at h) in (found, ground (arith, i), e))
]

approve_sound :
    (value : Option JsonValue) (u : Unit {0})
    → approve value ≡ ok u
    → (job_type : String) × (is_in job_type allowed_job_types ≡ true)
      × (value ≡ some (str (codes job_type)))
unfolding approve
approve_sound (some (str t)) u h =
    (let (s, i, e) =
        is_one_of_sound t allowed_job_types
          (ground (arith, raise_if-ok (not (is_one_of t allowed_job_types)) _ u h)) in
      (s, i, rw e refl))
approve_sound none u h = cc
approve_sound (some null) u h = cc
approve_sound (some (bool b)) u h = cc
approve_sound (some (int z)) u h = cc
approve_sound (some (real a z)) u h = cc
approve_sound (some (compound t)) u h = cc

approve_action_sound :
    (action_type : String) (config : Dict) (u : Unit {0})
    → approve_action action_type config ≡ ok u
    → (str_eq action_type "run_approved_agent_job" ≡ false) ⊎ HasAllowedJob config
unfolding approve_action
approve_action_sound action_type config u h =
    elim (Bool-cases (str_eq action_type "run_approved_agent_job")) [
      | inl b ↦ inr (approve_sound (Json.get "job_type" config) u (rw (approve_action, b) at h))
      | inr b ↦ inl b
    ]

-- A workflow that is created is one whose trigger and action are of the known types, and the actions of
-- all workflows still run no job but those of the allowed types, if they did so before.
pub create_workflow-IsApproved :
    (payload : WorkflowRequest) (current_id : ℕ) (current : User) (db : Db)
    (workflow : WorkflowCreated) (db' : Db)
    → AllRows IsApproved db.platform.actions
    → create_workflow payload current_id current db ≡ ok (workflow, db')
    → (is_in payload.trigger_type trigger_types ≡ true)
      × (is_in payload.action_type action_types ≡ true)
      × AllRows IsApproved db'.platform.actions
unfolding create_workflow insert_parts insert_workflow insert_trigger insert_action store
    commit_audited audit add_audit flush flush_platform
create_workflow-IsApproved payload current_id current db workflow db' s h =
    (let (u, p, g) = >>=-eq-ok (require_permission "automation:manage" current) _ h in
      let (v, q, f) =
        >>=-eq-ok
          (raise_if
            (not (is_in payload.trigger_type trigger_types)
              || not (is_in payload.action_type action_types))
            (bad_request "Unsupported workflow trigger or action"))
          _ g in
      let (w, r, e) = >>=-eq-ok (approve_action payload.action_type payload.action_config) _ f in
      let known =
        raise_if-ok
          (not (is_in payload.trigger_type trigger_types)
            || not (is_in payload.action_type action_types))
          _ v q in
      (
        ground (arith, known),
        ground (arith, known),
        subst (λ d. AllRows IsApproved d.platform.actions) (state-ok e)
            (AllRows-flush IsApproved _ (
              AllRows-add IsApproved _ _ _
                (approve_action_sound payload.action_type payload.action_config w r)
                (AllRows-flush IsApproved _ s))),
      ))
