-- ===== src/Devices/Summary/Agreement.antt =====
-- The counts of `dashboard_summary` (backend/app/api/dashboard.py) and those of `operations_dashboard`
-- (backend/app/api/phase3.py).
use cyclope_central.Base.{ℕ, ◌+◌, ◌≤◌, ◌≡◌, refl, false, ◌&&◌, ◌||◌, arith, ◌==◌}
use cyclope_central.Http.{ok, ok-injective, >>=-eq-ok}
use cyclope_central.Session.Query.{count}
use cyclope_central.Session.Counts.{count-both, count_mono}
use cyclope_central.Models.Tenant.{User}
use cyclope_central.Models.Alert.{Severity}
use cyclope_central.Database.{Db}
use cyclope_central.Auth.Roles.{require_permission}
use cyclope_central.Notifications.Enqueue.{severity_eq}
use cyclope_central.Operations.Assistant.{is_offline}
use cyclope_central.Devices.Summary.{
  DashboardSummary, counts_online, is_active_with, dashboard_summary,
}
use cyclope_central.Platform.Dashboard.{
  OperationsDashboard, is_active_alert, widgets_of, operations_dashboard,
}

module _ (org : ℕ) (db : Db) where
  pub online_and_offline :
      count (counts_online org) db.devices + count (is_offline org) db.devices
      ≡ count (λ k d. d.organization_id == org) db.devices
  unfolding counts_online is_offline
  online_and_offline =
      count-both (counts_online org) (is_offline org) (λ k d. d.organization_id == org) db.devices
        (λ k d. ground arith) (λ k d. ground arith)

  severities_disjoint :
      (s : Severity) → (severity_eq s Severity.warning && severity_eq s Severity.critical) ≡ false
  unfolding severity_eq
  severities_disjoint Severity.info = refl
  severities_disjoint Severity.warning = refl
  severities_disjoint Severity.critical = refl

  warnings_and_criticals :
      count (is_active_with Severity.warning org) db.alerts
        + count (is_active_with Severity.critical org) db.alerts
      ≤ count (is_active_alert org) db.alerts
  unfolding is_active_with is_active_alert
  warnings_and_criticals =
      rw
        (count-both (is_active_with Severity.warning org) (is_active_with Severity.critical org)
          (λ k a.
            is_active_with Severity.warning org k a || is_active_with Severity.critical org k a)
          db.alerts (λ k a. ground (arith, severities_disjoint a.severity)) (λ k a. refl))
        (count_mono _ (is_active_alert org) db.alerts (λ k a. ground arith))

-- The two dashboards of one user agree: the devices that are online and those that are not make up the
-- total, both dashboards show the same total and the same number of devices that are not online, and the
-- active warnings and critical alerts are together no more than the active alerts.
pub dashboards_agree :
    (today : ℕ) (current : User) (db : Db) (s : DashboardSummary) (d : OperationsDashboard)
    → dashboard_summary current db ≡ ok s
    → operations_dashboard today current db ≡ ok d
    → (s.online_devices + s.offline_devices ≡ s.total_devices)
      × (s.total_devices ≡ d.widgets.total_devices)
      × (s.offline_devices ≡ d.widgets.offline_devices)
      × (s.active_warning_alerts + s.active_critical_alerts ≤ d.widgets.active_alerts)
unfolding dashboard_summary operations_dashboard widgets_of
dashboards_agree today current db s d h k =
    (let (u, p, g) = >>=-eq-ok (require_permission "dashboard:read" current) _ h in
      let (v, q, f) = >>=-eq-ok (require_permission "dashboard:read" current) _ k in
      rw (← ok-injective g, ← ok-injective f)
        (
          omega (arith, online_and_offline current.organization_id db),
          refl,
          omega (arith, online_and_offline current.organization_id db),
          warnings_and_criticals current.organization_id db,
        ))
