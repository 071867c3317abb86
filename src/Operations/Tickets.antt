-- ===== src/Operations/Tickets.antt =====
-- The ticket handlers of backend/app/api/operations.py. `created` is the time of the database.
use cyclope_central.Base.{
  ℕ, String, Bool, not, ◌||◌, Option, some, List, [], ◌∷◌, ◌==◌, leb, is_in, map,
}
use cyclope_central.Base.Int.{pos}
use cyclope_central.Base.Json.{str, int, bool, codes}
use cyclope_central.Http.{Result, ok, ◌>>=◌, ◌>>◌, raise_if, bad_request}
use cyclope_central.Session.{get, select, add}
use cyclope_central.Session.Query.{order_by}
use cyclope_central.Session.Owned.{owned}
use cyclope_central.Models.Tenant.{User}
use cyclope_central.Models.Operations.{Ticket, TicketComment, TicketTimeEntry}
use cyclope_central.Database.{Db}
use cyclope_central.Auth.Roles.{require_permission}
use cyclope_central.Operations.{store, ensure_device, commit_audited}

abbrev pub ticket_statuses : List String
ticket_statuses = "New" ∷ "Open" ∷ "In Progress" ∷ "Waiting" ∷ "Resolved" ∷ "Closed" ∷ []

abbrev pub ticket_priorities : List String
ticket_priorities = "Low" ∷ "Medium" ∷ "High" ∷ "Critical" ∷ []

pub record TicketRequest : Type 0 where
  pub title : String
  pub description : Option String
  pub device_id : Option ℕ
  pub asset_id : Option ℕ
  pub company_id : Option ℕ
  pub alert_id : Option ℕ
  pub assigned_user_id : Option ℕ
  pub status : String
  pub priority : String

pub record TicketCommentRequest : Type 0 where
  pub body : String
  pub internal : Bool

pub record TicketTimeEntryRequest : Type 0 where
  pub minutes : ℕ
  pub notes : Option String

pub record TicketListed : Type 0 where
  pub id : ℕ
  pub title : String
  pub status : String
  pub priority : String
  pub assigned_user_id : Option ℕ

unfoldable pub ticket_listed : ℕ × Ticket → TicketListed
ticket_listed (k, t) = record {
  id = k;
  title = t.title;
  status = t.status;
  priority = t.priority;
  assigned_user_id = t.assigned_user_id;
}

unfoldable pub list_tickets : User → Db → Result (List TicketListed)
unfolding ticket_listed
list_tickets current db = do
  require_permission "tickets:read" current
  ok (
      map ticket_listed (
        order_by (λ a b. leb b.1.created_at a.1.created_at)
          (select (λ k t. t.organization_id == current.organization_id) db.operations.tickets)))

unfoldable pub new_ticket : ℕ → ℕ → TicketRequest → Ticket
new_ticket created organization_id payload = record {
  organization_id = organization_id;
  device_id = payload.device_id;
  asset_id = payload.asset_id;
  company_id = payload.company_id;
  alert_id = payload.alert_id;
  assigned_user_id = payload.assigned_user_id;
  title = payload.title;
  description = payload.description;
  status = payload.status;
  priority = payload.priority;
  created_at = created;
}

unfoldable pub insert_ticket : Ticket → Db → Db
unfolding store
insert_ticket ticket db =
    store (record db.operations { tickets = add db.next_id ticket db.operations.tickets }) db

pub record TicketCreated : Type 0 where
  pub id : ℕ
  pub title : String
  pub status : String
  pub priority : String

unfoldable pub create_ticket : ℕ → TicketRequest → ℕ → User → Db → Result (TicketCreated × Db)
unfolding new_ticket insert_ticket
create_ticket created payload current_id current db = do
  require_permission "tickets:write" current
  raise_if
      (not (is_in payload.status ticket_statuses) || not (is_in payload.priority ticket_priorities))
      (bad_request "Invalid ticket status or priority")
  device ← ensure_device current payload.device_id db
  let ticket = new_ticket created current.organization_id payload
  ok (
    record {
      id = db.next_id;
      title = ticket.title;
      status = ticket.status;
      priority = ticket.priority;
    },
    commit_audited current_id current "ticket.created" "ticket" (some db.next_id)
        (("priority", str (codes ticket.priority)) ∷ []) (insert_ticket ticket db),
  )

-- a ticket of the caller's organization, or 404
unfoldable pub owned_ticket : ℕ → ℕ → Db → Result Ticket
unfolding owned
owned_ticket ticket_id organization_id db =
    owned (λ row. row.organization_id) "Ticket not found" organization_id
      (get ticket_id db.operations.tickets)

pub record CommentCreated : Type 0 where
  pub id : ℕ
  pub ticket_id : ℕ
  pub internal : Bool

unfoldable pub add_ticket_comment :
    ℕ → TicketCommentRequest → ℕ → User → Db → Result (CommentCreated × Db)
unfolding store
add_ticket_comment ticket_id payload current_id current db = do
  require_permission "tickets:write" current
  ticket ← owned_ticket ticket_id current.organization_id db
  let comment : TicketComment = record {
    organization_id = current.organization_id;
    ticket_id = ticket_id;
    author_user_id = some current_id;
    body = payload.body;
    internal = payload.internal;
  }
  ok (
    record { id = db.next_id; ticket_id = ticket_id; internal = comment.internal },
    commit_audited current_id current "ticket.comment.created" "ticket" (some ticket_id)
        (("internal", bool payload.internal) ∷ [])
        (store (record db.operations { comments = add db.next_id comment db.operations.comments })
          db),
  )

pub record TimeEntryCreated : Type 0 where
  pub id : ℕ
  pub ticket_id : ℕ
  pub minutes : ℕ

unfoldable pub add_ticket_time :
    ℕ → TicketTimeEntryRequest → ℕ → User → Db → Result (TimeEntryCreated × Db)
unfolding store
add_ticket_time ticket_id payload current_id current db = do
  require_permission "tickets:write" current
  ticket ← owned_ticket ticket_id current.organization_id db
  let entry : TicketTimeEntry = record {
    organization_id = current.organization_id;
    ticket_id = ticket_id;
    user_id = some current_id;
    minutes = payload.minutes;
    notes = payload.notes;
  }
  ok (
    record { id = db.next_id; ticket_id = ticket_id; minutes = entry.minutes },
    commit_audited current_id current "ticket.time.created" "ticket" (some ticket_id)
        (("minutes", int (pos payload.minutes)) ∷ [])
        (store
          (record db.operations { time_entries = add db.next_id entry db.operations.time_entries })
          db),
  )
