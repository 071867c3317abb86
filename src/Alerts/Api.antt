-- ===== src/Alerts/Api.antt =====
-- The handlers of backend/app/api/alerts.py. A response shows the alert's attributes as the session has
-- them, with the device's hostname, the rule's key, and the alert's events where they are asked for.
pub mod Final
use mathlib.Core.List.{reverse}
use cyclope_central.Base.{
  ℕ, String, Bool, true, false, not, ◌&&◌, ◌||◌, Option, none, some, List, [], ◌∷◌, ◌==◌, leb,
  is_some, if◌then◌else◌, map,
}
use cyclope_central.Http.{Result, ok, err, ◌>>=◌, ◌>>◌, not_found}
use cyclope_central.Session.{get, select}
use cyclope_central.Session.Owned.{owned}
use cyclope_central.Models.Tenant.{User}
use cyclope_central.Models.Device.{Device}
use cyclope_central.Models.Alert.{
  Severity, AlertStatus, AlertRule, Alert, AlertEventType, AlertEvent, plain, empty,
}
use cyclope_central.Database.{Db, flush}
use cyclope_central.Auth.Roles.{require_permission}
use cyclope_central.Notifications.Enqueue.{severity_eq}
use cyclope_central.Alerts.Raising.{add_event, write_alert}

pub record AlertResponse : Type 0 where
  pub id : ℕ
  pub alert : Alert
  pub device_hostname : Option String
  pub rule_key : Option String
  pub events : List AlertEvent

hostname_of : Option Device → Option String
hostname_of none = none
hostname_of (some device) = some device.hostname

key_of : Option AlertRule → Option String
key_of none = none
key_of (some rule) = some rule.rule_key

events_of : ℕ → List AlertEvent → List AlertEvent
events_of alert_id [] = []
events_of alert_id (e ∷ rest) =
    let later = events_of alert_id rest in if e.alert_id == alert_id then e ∷ later else later

unfoldable pub alert_response : Bool → Db → ℕ × Alert → AlertResponse
unfolding hostname_of key_of events_of
alert_response include_events db (alert_id, alert) = record {
  id = alert_id;
  alert = alert;
  device_hostname = hostname_of (get alert.device_id db.devices);
  rule_key = key_of (get alert.rule_id db.alert_rules);
  events = if include_events then events_of alert_id db.alert_events else [];
}

unfoldable pub status_eq : AlertStatus → AlertStatus → Bool
status_eq AlertStatus.active AlertStatus.active = true
status_eq AlertStatus.acknowledged AlertStatus.acknowledged = true
status_eq AlertStatus.resolved AlertStatus.resolved = true
status_eq _ _ = false

-- the optional conditions of `list_alerts`
unfoldable pub severity_is : Option Severity → Severity → Bool
severity_is none s = true
severity_is (some t) s = severity_eq s t

unfoldable pub status_is : Option AlertStatus → AlertStatus → Bool
unfolding status_eq
status_is none s = true
status_is (some t) s = status_eq s t

unfoldable pub device_is : Option ℕ → ℕ → Bool
device_is none d = true
device_is (some e) d = d == e

unfoldable pub is_listed : Option Severity → Option AlertStatus → Option ℕ → ℕ → ℕ → Alert → Bool
unfolding severity_is status_is device_is
is_listed severity status device_id organization_id alert_id alert =
    (alert.organization_id == organization_id)
    && severity_is severity alert.severity
    && status_is status alert.status
    && device_is device_id alert.device_id

-- `order_by(Alert.last_seen_at)`; the listing is the reverse
unfoldable pub insert_by_seen : ℕ × Alert → List (ℕ × Alert) → List (ℕ × Alert)
insert_by_seen e [] = e ∷ []
insert_by_seen e (f ∷ rest) =
    let later = insert_by_seen e rest in
    if leb e.1.last_seen_at f.1.last_seen_at then e ∷ f ∷ rest else f ∷ later

unfoldable pub order_by_seen : List (ℕ × Alert) → List (ℕ × Alert)
unfolding insert_by_seen
order_by_seen [] = []
order_by_seen (e ∷ rest) = insert_by_seen e (order_by_seen rest)

unfoldable pub list_alerts :
    Option Severity → Option AlertStatus → Option ℕ → User → Db → Result (List AlertResponse × Db)
unfolding is_listed order_by_seen alert_response
list_alerts severity status device_id current db = do
  require_permission "alerts:read" current
  let alerts = select (is_listed severity status device_id current.organization_id) db.alerts
  ok (map (alert_response false db) (reverse (order_by_seen alerts)), db)

unfoldable pub owned_alert : ℕ → ℕ → Db → Result Alert
unfolding owned
owned_alert alert_id organization_id db =
    owned (λ row. row.organization_id) "Alert not found" organization_id (get alert_id db.alerts)

unfoldable pub get_alert : ℕ → User → Db → Result (AlertResponse × Db)
get_alert alert_id current db = do
  require_permission "alerts:read" current
  alert ← owned_alert alert_id current.organization_id db
  ok (alert_response true db (alert_id, alert), db)

unfoldable pub acknowledged_alert : ℕ → Alert → Alert
acknowledged_alert now alert = record alert {
  status = AlertStatus.acknowledged;
  acknowledged_at = some now;
}

unfoldable pub resolved_alert : ℕ → Alert → Alert
resolved_alert now alert = record alert { status = AlertStatus.resolved; resolved_at = some now }

-- the attributes after `acknowledge_alert`, and the session
unfoldable pub acknowledge : ℕ → ℕ → Alert → Db → Alert × Db
unfolding status_eq acknowledged_alert add_event write_alert flush
acknowledge now alert_id alert db =
    let alert' = acknowledged_alert now alert in
    if status_eq alert.status AlertStatus.active
    then (
      alert',
      flush (
          add_event alert_id alert' AlertEventType.acknowledged
            (plain "Alert acknowledged by operator.") empty (write_alert alert_id alert' db)),
    )
    else (alert, db)

unfoldable pub resolve : ℕ → ℕ → Alert → Db → Alert × Db
unfolding status_eq resolved_alert add_event write_alert flush
resolve now alert_id alert db =
    let alert' = resolved_alert now alert in
    if not (status_eq alert.status AlertStatus.resolved)
    then (
      alert',
      flush (
          add_event alert_id alert' AlertEventType.resolved (plain "Alert resolved by operator.")
            empty (write_alert alert_id alert' db)),
    )
    else (alert, db)

unfoldable pub acknowledge_alert : ℕ → ℕ → User → Db → Result (AlertResponse × Db)
unfolding acknowledge
acknowledge_alert now alert_id current db = do
  require_permission "alerts:acknowledge" current
  alert ← owned_alert alert_id current.organization_id db
  let (alert', db') = acknowledge now alert_id alert db
  ok (alert_response true db' (alert_id, alert'), db')

unfoldable pub resolve_alert : ℕ → ℕ → User → Db → Result (AlertResponse × Db)
unfolding resolve
resolve_alert now alert_id current db = do
  require_permission "alerts:acknowledge" current
  alert ← owned_alert alert_id current.organization_id db
  let (alert', db') = resolve now alert_id alert db
  ok (alert_response true db' (alert_id, alert'), db')
