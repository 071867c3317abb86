-- ===== src/Operations/Assistant.antt =====
-- `ai_query` of backend/app/api/operations.py. `lower` is `str.lower()`, `today` is `date.today()` as a
-- number of days.
use cyclope_central.Base.{
  ℕ, ◌+◌, String, Bool, false, not, ◌&&◌, Option, none, some, [], ◌∷◌, ◌++◌, ◌==◌, leb, opt_eq,
  take, if◌then◌else◌,
}
use cyclope_central.Base.Json.{Text, str, codes, decimal, is_within}
use cyclope_central.Http.{Result, ok, ◌>>◌}
use cyclope_central.Session.{add}
use cyclope_central.Session.Query.{count}
use cyclope_central.Models.Tenant.{User}
use cyclope_central.Models.Device.{Device}
use cyclope_central.Models.Alert.{Severity, AlertStatus, Alert}
use cyclope_central.Models.Operations.{Asset, Ticket}
use cyclope_central.Database.{Db, flush}
use cyclope_central.Auth.Roles.{require_permission}
use cyclope_central.Notifications.Enqueue.{severity_eq}
use cyclope_central.Alerts.Api.{status_eq}
use cyclope_central.Operations.{store, commit_audited}

-- The conditions of the counts, each with the organization.
unfoldable pub is_offline : ℕ → ℕ → Device → Bool
is_offline organization_id k device =
    (device.organization_id == organization_id) && not device.is_online

unfoldable pub is_critical : ℕ → ℕ → Alert → Bool
unfolding severity_eq status_eq
is_critical organization_id k alert =
    (alert.organization_id == organization_id)
    && severity_eq alert.severity Severity.critical
    && status_eq alert.status AlertStatus.active

-- A comparison with NULL does not hold.
unfoldable pub expires_by : ℕ → Option ℕ → Bool
expires_by soon none = false
expires_by soon (some day) = leb day soon

unfoldable pub warranty_ends_by : ℕ → ℕ → ℕ → Asset → Bool
unfolding expires_by
warranty_ends_by organization_id soon k asset =
    (asset.organization_id == organization_id) && expires_by soon asset.warranty_expiration

unfoldable pub is_assigned : ℕ → ℕ → ℕ → Ticket → Bool
is_assigned organization_id user_id k ticket =
    (ticket.organization_id == organization_id) && opt_eq ticket.assigned_user_id user_id

unfoldable pub answer_of : ℕ → Text → ℕ → User → Db → Text
unfolding is_within is_offline is_critical warranty_ends_by is_assigned
answer_of today query current_id current db =
    if is_within (codes "offline") query
    then decimal (count (is_offline current.organization_id) db.devices)
      ++ codes " devices are currently offline."
    else if is_within (codes "critical alert") query
    then decimal (count (is_critical current.organization_id) db.alerts)
      ++ codes " active critical alerts need attention."
    else if is_within (codes "warrant") query
    then decimal
        (count (warranty_ends_by current.organization_id (today + 30)) db.operations.assets)
      ++ codes " assets have expired or expiring warranties within 30 days."
    else if is_within (codes "ticket") query && is_within (codes "assigned") query
    then decimal (count (is_assigned current.organization_id current_id) db.operations.tickets)
      ++ codes " tickets are assigned to you."
    else codes
        "I can summarize devices, alerts, warranties, and assigned tickets from tenant-scoped platform data. External LLM providers are not enabled yet."

unfoldable pub insert_conversation : ℕ → User → Text → Db → Db
unfolding store
insert_conversation current_id current query db =
    store
      (record db.operations {
        conversations =
            add db.next_id
              (record {
                organization_id = current.organization_id;
                user_id = some current_id;
                title = take 255 query;
              })
              db.operations.conversations;
      })
      db

unfoldable pub insert_message : ℕ → ℕ → String → Text → Db → Db
unfolding store
insert_message organization_id conversation_id role content db =
    store
      (record db.operations {
        messages =
            add db.next_id
              (record {
                organization_id = organization_id;
                conversation_id = conversation_id;
                role = role;
                content = content;
              })
              db.operations.messages;
      })
      db

unfoldable pub insert_insight : ℕ → Text → Db → Db
unfolding store
insert_insight organization_id answer db =
    store
      (record db.operations {
        insights =
            add db.next_id
              (record {
                organization_id = organization_id;
                insight_type = "natural_language_query";
                summary = answer;
                metadata_json = ("provider", str (codes "local_stub")) ∷ [];
              })
              db.operations.insights;
      })
      db

pub record AnswerResponse : Type 0 where
  pub answer : Text
  pub provider : String
  pub conversation_id : ℕ

unfoldable pub ai_query : (Text → Text) → ℕ → Text → ℕ → User → Db → Result (AnswerResponse × Db)
unfolding answer_of insert_conversation insert_message insert_insight flush
ai_query lower today query current_id current db = do
  require_permission "ai:read" current
  let answer = answer_of today (lower query) current_id current db
  let org = current.organization_id
  let opened = flush (insert_conversation current_id current query db)
  let told = insert_insight org answer (
      insert_message org db.next_id "assistant" answer
        (insert_message org db.next_id "user" query opened))
  ok (
    record { answer = answer; provider = "local_stub"; conversation_id = db.next_id },
    commit_audited current_id current "ai.query" "ai_conversation" (some db.next_id)
        (("provider", str (codes "local_stub")) ∷ []) told,
  )
