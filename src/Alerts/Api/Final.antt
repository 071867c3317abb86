-- ===== src/Alerts/Api/Final.antt =====
-- `acknowledge_alert` and `resolve_alert` of backend/app/api/alerts.py on an alert that is resolved.
use mathlib.Core.Path.{subst}
use cyclope_central.Base.{ℕ, ◌≡◌, refl, ap, ◌∙◌, some, Bool-cases, inl, inr}
use cyclope_central.Http.{ok, ok-injective, >>=-eq-ok}
use cyclope_central.Session.{get, peek, write, IsClean}
use cyclope_central.Session.Laws.{flush-IsClean}
use cyclope_central.Session.Lookup.{get-flush-write, get-peek}
use cyclope_central.Session.Owned.{owned_sound}
use cyclope_central.Models.Tenant.{User}
use cyclope_central.Models.Alert.{AlertStatus, Alert}
use cyclope_central.Database.{Db, flush}
use cyclope_central.Auth.Roles.{require_permission}
use cyclope_central.Alerts.Raising.{add_event, write_alert}
use cyclope_central.Alerts.Api.{
  AlertResponse, alert_response, status_eq, owned_alert, resolved_alert, acknowledge, resolve,
  acknowledge_alert, resolve_alert,
}

acknowledge-resolved :
    (now alert_id : ℕ) (alert : Alert) (db : Db)
    → alert.status ≡ AlertStatus.resolved
    → acknowledge now alert_id alert db ≡ (alert, db)
unfolding acknowledge status_eq
acknowledge-resolved now alert_id alert db h = rw h refl

resolve-resolved :
    (now alert_id : ℕ) (alert : Alert) (db : Db)
    → alert.status ≡ AlertStatus.resolved
    → resolve now alert_id alert db ≡ (alert, db)
unfolding resolve status_eq
resolve-resolved now alert_id alert db h = rw h refl

status-resolve :
    (s : AlertStatus) (now alert_id : ℕ) (alert : Alert) (db : Db)
    → alert.status ≡ s
    → (resolve now alert_id alert db).0.status ≡ AlertStatus.resolved
unfolding resolve status_eq
status-resolve AlertStatus.active now alert_id alert db h = rw h refl
status-resolve AlertStatus.acknowledged now alert_id alert db h = rw h refl
status-resolve AlertStatus.resolved now alert_id alert db h =
    ap (λ r. r.0.status) (resolve-resolved now alert_id alert db h) ∙ h

owned_alert_sound :
    (alert_id organization_id : ℕ) (db : Db) (alert : Alert)
    → owned_alert alert_id organization_id db ≡ ok alert
    → get alert_id db.alerts ≡ some alert
unfolding owned_alert
owned_alert_sound alert_id organization_id db alert h =
    (owned_sound (λ row. row.organization_id) "Alert not found" organization_id
      (get alert_id db.alerts) alert h).0

-- The resolved alert is the one in the session, and nothing is pending on the alerts.
resolve-stored :
    (now alert_id : ℕ) (alert : Alert) (db : Db)
    → IsClean db.alerts
    → get alert_id db.alerts ≡ some alert
    → (get alert_id (resolve now alert_id alert db).1.alerts
        ≡ some (resolve now alert_id alert db).0)
      × IsClean (resolve now alert_id alert db).1.alerts
unfolding resolve write_alert add_event flush
resolve-stored now alert_id alert db c h =
    (let alert' = resolved_alert now alert in
      elim (Bool-cases (status_eq alert.status AlertStatus.resolved)) [
        | inl e ↦ rw e (h, c)
        | inr e ↦ rw e (
          get-flush-write alert_id alert alert' db.alerts h,
          flush-IsClean (write alert_id alert' db.alerts),
        )
      ])

-- What `resolve_alert` leaves behind, with the alert that it answers with.
resolve_alert-stored :
    (now alert_id : ℕ) (current : User) (db : Db) (response : AlertResponse) (db' : Db)
    → IsClean db.alerts
    → resolve_alert now alert_id current db ≡ ok (response, db')
    → (get alert_id db'.alerts ≡ some response.alert)
      × IsClean db'.alerts
      × (response.alert.status ≡ AlertStatus.resolved)
unfolding resolve_alert alert_response
resolve_alert-stored now alert_id current db response db' c h =
    (let (u, p, g) = >>=-eq-ok (require_permission "alerts:acknowledge" current) _ h in
      let (alert, o, f) = >>=-eq-ok (owned_alert alert_id current.organization_id db) _ g in
      let i = owned_alert_sound alert_id current.organization_id db alert o in
      let (s, n) = resolve-stored now alert_id alert db c i in
      subst
        (λ (r : AlertResponse × Db).
          (get alert_id r.1.alerts ≡ some r.0.alert)
          × IsClean r.1.alerts
          × (r.0.alert.status ≡ AlertStatus.resolved))
        (ok-injective f) (s, n, status-resolve alert.status now alert_id alert db refl))

module _ (later alert_id : ℕ) (current : User) (db : Db) (alert : Alert)
    (h : get alert_id db.alerts ≡ some alert) (r : alert.status ≡ AlertStatus.resolved)
    (response : AlertResponse) (db' : Db) where
  acknowledge_alert-resolved :
      acknowledge_alert later alert_id current db ≡ ok (response, db')
      → (response.alert ≡ alert) × (db' ≡ db)
  unfolding acknowledge_alert alert_response
  acknowledge_alert-resolved e =
      (let (u, p, g) = >>=-eq-ok (require_permission "alerts:acknowledge" current) _ e in
        let (found, o, f) = >>=-eq-ok (owned_alert alert_id current.organization_id db) _ g in
        let i = owned_alert_sound alert_id current.organization_id db found o in
        let q : found ≡ alert = cc in
        let k = acknowledge-resolved later alert_id found db (ap (λ a. a.status) q ∙ r) in
        (cc (rw k at f), cc (rw k at f)))

  resolve_alert-resolved :
      resolve_alert later alert_id current db ≡ ok (response, db')
      → (response.alert ≡ alert) × (db' ≡ db)
  unfolding resolve_alert alert_response
  resolve_alert-resolved e =
      (let (u, p, g) = >>=-eq-ok (require_permission "alerts:acknowledge" current) _ e in
        let (found, o, f) = >>=-eq-ok (owned_alert alert_id current.organization_id db) _ g in
        let i = owned_alert_sound alert_id current.organization_id db found o in
        let q : found ≡ alert = cc in
        let k = resolve-resolved later alert_id found db (ap (λ a. a.status) q ∙ r) in
        (cc (rw k at f), cc (rw k at f)))

-- An operator's resolution is final. Once `resolve_alert` has answered, where nothing was pending on the
-- alerts, the session and the database hold the alert that it answered with, which is resolved. On what
-- it left behind, a later acknowledgement and a later resolution that are answered show that same alert
-- and leave the session as it is.
pub resolve_is_final :
    (now later alert_id : ℕ) (current other : User) (db : Db) (response : AlertResponse) (db' : Db)
    (acknowledged resolved : AlertResponse) (db_acknowledged db_resolved : Db)
    → IsClean db.alerts
    → resolve_alert now alert_id current db ≡ ok (response, db')
    → acknowledge_alert later alert_id other db' ≡ ok (acknowledged, db_acknowledged)
    → resolve_alert later alert_id other db' ≡ ok (resolved, db_resolved)
    → (get alert_id db'.alerts ≡ some response.alert)
      × (peek alert_id db'.alerts ≡ some response.alert)
      × (response.alert.status ≡ AlertStatus.resolved)
      × ((acknowledged.alert ≡ response.alert) × (db_acknowledged ≡ db'))
      × ((resolved.alert ≡ response.alert) × (db_resolved ≡ db'))
resolve_is_final now later alert_id current other db response db' acknowledged resolved
      db_acknowledged db_resolved c h a e =
    (let (s, n, r) = resolve_alert-stored now alert_id current db response db' c h in
      (
        s,
        get-peek alert_id response.alert db'.alerts n s,
        r,
        acknowledge_alert-resolved later alert_id other db' response.alert s r acknowledged
            db_acknowledged a,
        resolve_alert-resolved later alert_id other db' response.alert s r resolved db_resolved e,
      ))
