-- ===== src/Devices/Summary.antt =====
-- `dashboard_summary` of backend/app/api/dashboard.py.
pub mod Agreement
use mathlib.Core.List.{reverse}
use cyclope_central.Base.{
  ℕ, ◌-◌, Bool, true, false, ◌&&◌, ◌||◌, List, [], ◌∷◌, ◌==◌, length, take, map, if◌then◌else◌,
}
use cyclope_central.Http.{Result, ok, ◌>>=◌, ◌>>◌}
use cyclope_central.Session.{select}
use cyclope_central.Session.Query.{count, column}
use cyclope_central.Models.Tenant.{User}
use cyclope_central.Models.Device.{Device}
use cyclope_central.Models.Alert.{Severity, AlertStatus, Alert}
use cyclope_central.Database.{Db}
use cyclope_central.Auth.Roles.{require_permission}
use cyclope_central.Notifications.Enqueue.{severity_eq}
use cyclope_central.Alerts.Api.{AlertResponse, alert_response, order_by_seen, status_eq}

pub record DashboardSummary : Type 0 where
  pub total_devices : ℕ
  pub online_devices : ℕ
  pub offline_devices : ℕ
  pub active_warning_alerts : ℕ
  pub active_critical_alerts : ℕ
  pub devices_needing_attention : ℕ
  pub recent_alerts : List AlertResponse

unfoldable pub counts_online : ℕ → ℕ → Device → Bool
counts_online organization_id k device =
    (device.organization_id == organization_id) && device.is_online

unfoldable pub is_active_with : Severity → ℕ → ℕ → Alert → Bool
unfolding severity_eq status_eq
is_active_with severity organization_id k alert =
    (alert.organization_id == organization_id)
    && status_eq alert.status AlertStatus.active
    && severity_eq alert.severity severity

unfoldable pub needs_attention : ℕ → ℕ → Alert → Bool
unfolding status_eq
needs_attention organization_id k alert =
    (alert.organization_id == organization_id)
    && (status_eq alert.status AlertStatus.active
        || status_eq alert.status AlertStatus.acknowledged)

unfoldable pub occurs : ℕ → List ℕ → Bool
occurs n [] = false
occurs n (m ∷ rest) = n == m || occurs n rest

-- `distinct(...)`
unfoldable pub distinct : List ℕ → List ℕ
unfolding occurs
distinct [] = []
distinct (n ∷ rest) = let later = distinct rest in if occurs n rest then later else n ∷ later

-- No more devices are online than there are, so the difference is exact.
unfoldable pub dashboard_summary : User → Db → Result DashboardSummary
unfolding counts_online is_active_with needs_attention distinct order_by_seen alert_response
dashboard_summary current db = do
  require_permission "dashboard:read" current
  let org = current.organization_id
  let total = count (λ k d. d.organization_id == org) db.devices
  let online = count (counts_online org) db.devices
  ok (record {
    total_devices = total;
    online_devices = online;
    offline_devices = total - online;
    active_warning_alerts = count (is_active_with Severity.warning org) db.alerts;
    active_critical_alerts = count (is_active_with Severity.critical org) db.alerts;
    devices_needing_attention =
        length (distinct (column (needs_attention org) (λ a. a.device_id) db.alerts));
    recent_alerts =
        map (alert_response false db)
          (take 10 (reverse (order_by_seen (select (λ k a. a.organization_id == org) db.alerts))));
  })
