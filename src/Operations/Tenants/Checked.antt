-- ===== src/Operations/Tenants/Checked.antt =====
-- The handlers of backend/app/api/operations.py that check what their row names.
use mathlib.Core.Path.{subst}
use cyclope_central.Base.{ℕ, ◌≡◌, not, ◌||◌, is_in}
use cyclope_central.Http.{ok, >>=-eq-ok, state-ok, raise_if, bad_request}
use cyclope_central.Session.{get}
use cyclope_central.Session.Owned.{owned_sound}
use cyclope_central.Models.Tenant.{User}
use cyclope_central.Models.Operations.{Asset, Ticket, ReportTemplate}
use cyclope_central.Database.{Db}
use cyclope_central.Auth.Roles.{require_permission}
use cyclope_central.Operations.{ensure_device}
use cyclope_central.Operations.Assets.{
  AssetRequest, create_asset, completed_asset, asset_statuses, insert_asset, requested_asset,
}
use cyclope_central.Operations.Discovery.{
  ScanCreated, DiscoveryScanRequest, new_scan, insert_scan, create_scan,
}
use cyclope_central.Operations.Tickets.{
  TicketCreated, CommentCreated, TimeEntryCreated, TicketRequest, TicketCommentRequest,
  TicketTimeEntryRequest, ticket_statuses, ticket_priorities, new_ticket, insert_ticket,
  create_ticket, owned_ticket, add_ticket_comment, add_ticket_time,
}
use cyclope_central.Operations.Reports.{
  ScheduleCreated, ReportScheduleRequest, owned_template, create_report_schedule,
}
use cyclope_central.Operations.Tenants.{
  IsTenantSafe, OwnsTicket, OwnsTemplate, referents, commit-IsTenantSafe, ensure_device-Owns,
}
use cyclope_central.Operations.Tenants.Rows.{
  store_asset, store_scan, store_ticket, store_comment, store_entry, store_schedule,
}

module _ (current_id : ℕ) (current : User) (db : Db) (db' : Db) (s : IsTenantSafe db) where
  pub create_asset-IsTenantSafe :
      (payload : AssetRequest) (asset : ℕ × Asset)
      → create_asset payload current_id current db ≡ ok (asset, db')
      → IsTenantSafe db'
  unfolding create_asset insert_asset completed_asset requested_asset
  create_asset-IsTenantSafe payload asset h =
      (let (u, p, g) = >>=-eq-ok (require_permission "assets:write" current) _ h in
        let (v, q, f) =
          >>=-eq-ok
            (raise_if (not (is_in payload.status asset_statuses))
              (bad_request "Invalid asset status"))
            _ g in
        let (device, r, e) = >>=-eq-ok (ensure_device current payload.device_id db) _ f in
        subst IsTenantSafe (state-ok e) (
          commit-IsTenantSafe current_id current _ _ _ _ _
            (store_asset db s _ (ensure_device-Owns current payload.device_id db device r))))

  pub create_scan-IsTenantSafe :
      (created : ℕ) (payload : DiscoveryScanRequest) (scan : ScanCreated)
      → create_scan created payload current_id current db ≡ ok (scan, db')
      → IsTenantSafe db'
  unfolding create_scan insert_scan new_scan
  create_scan-IsTenantSafe created payload scan h =
      (let (u, p, g) = >>=-eq-ok (require_permission "discovery:write" current) _ h in
        let (device, r, e) = >>=-eq-ok (ensure_device current payload.device_id db) _ g in
        subst IsTenantSafe (state-ok e) (
          commit-IsTenantSafe current_id current _ _ _ _ _
            (store_scan db s _ (ensure_device-Owns current payload.device_id db device r))))

  pub create_ticket-IsTenantSafe :
      (created : ℕ) (payload : TicketRequest) (ticket : TicketCreated)
      → create_ticket created payload current_id current db ≡ ok (ticket, db')
      → IsTenantSafe db'
  unfolding create_ticket insert_ticket new_ticket
  create_ticket-IsTenantSafe created payload ticket h =
      (let (u, p, g) = >>=-eq-ok (require_permission "tickets:write" current) _ h in
        let (v, q, f) =
          >>=-eq-ok
            (raise_if
              (not (is_in payload.status ticket_statuses)
                || not (is_in payload.priority ticket_priorities))
              (bad_request "Invalid ticket status or priority"))
            _ g in
        let (device, r, e) = >>=-eq-ok (ensure_device current payload.device_id db) _ f in
        subst IsTenantSafe (state-ok e) (
          commit-IsTenantSafe current_id current _ _ _ _ _
            (store_ticket db s _ (ensure_device-Owns current payload.device_id db device r))))

  owned_ticket-Owns :
      (ticket_id organization_id : ℕ) (ticket : Ticket)
      → owned_ticket ticket_id organization_id db ≡ ok ticket
      → OwnsTicket (referents db) organization_id ticket_id
  unfolding owned_ticket
  owned_ticket-Owns ticket_id organization_id ticket h =
      (let (e, o) =
          owned_sound (λ row. row.organization_id) "Ticket not found" organization_id
            (get ticket_id db.operations.tickets) ticket h in
        (ticket, e, o))

  owned_template-Owns :
      (template_id organization_id : ℕ) (template : ReportTemplate)
      → owned_template template_id organization_id db ≡ ok template
      → OwnsTemplate (referents db) organization_id template_id
  unfolding owned_template
  owned_template-Owns template_id organization_id template h =
      (let (e, o) =
          owned_sound (λ row. row.organization_id) "Report template not found" organization_id
            (get template_id db.operations.templates) template h in
        (template, e, o))

  pub add_ticket_comment-IsTenantSafe :
      (ticket_id : ℕ) (payload : TicketCommentRequest) (comment : CommentCreated)
      → add_ticket_comment ticket_id payload current_id current db ≡ ok (comment, db')
      → IsTenantSafe db'
  unfolding add_ticket_comment
  add_ticket_comment-IsTenantSafe ticket_id payload comment h =
      (let (u, p, g) = >>=-eq-ok (require_permission "tickets:write" current) _ h in
        let (ticket, r, e) = >>=-eq-ok (owned_ticket ticket_id current.organization_id db) _ g in
        subst IsTenantSafe (state-ok e) (
          commit-IsTenantSafe current_id current _ _ _ _ _
            (store_comment db s _ (owned_ticket-Owns ticket_id current.organization_id ticket r))))

  pub add_ticket_time-IsTenantSafe :
      (ticket_id : ℕ) (payload : TicketTimeEntryRequest) (entry : TimeEntryCreated)
      → add_ticket_time ticket_id payload current_id current db ≡ ok (entry, db')
      → IsTenantSafe db'
  unfolding add_ticket_time
  add_ticket_time-IsTenantSafe ticket_id payload entry h =
      (let (u, p, g) = >>=-eq-ok (require_permission "tickets:write" current) _ h in
        let (ticket, r, e) = >>=-eq-ok (owned_ticket ticket_id current.organization_id db) _ g in
        subst IsTenantSafe (state-ok e) (
          commit-IsTenantSafe current_id current _ _ _ _ _
            (store_entry db s _ (owned_ticket-Owns ticket_id current.organization_id ticket r))))

  pub create_report_schedule-IsTenantSafe :
      (payload : ReportScheduleRequest) (schedule : ScheduleCreated)
      → create_report_schedule payload current_id current db ≡ ok (schedule, db')
      → IsTenantSafe db'
  unfolding create_report_schedule
  create_report_schedule-IsTenantSafe payload schedule h =
      (let (u, p, g) = >>=-eq-ok (require_permission "reports:write" current) _ h in
        let (template, r, e) =
          >>=-eq-ok (owned_template payload.template_id current.organization_id db) _ g in
        subst IsTenantSafe (state-ok e) (
          commit-IsTenantSafe current_id current _ _ _ _ _ (
            store_schedule db s _
              (owned_template-Owns payload.template_id current.organization_id template r))))
