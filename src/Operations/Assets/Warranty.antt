-- ===== src/Operations/Assets/Warranty.antt =====
-- The counts of assets whose warranty ends: `warranty_alerts` and `ai_query` of
-- backend/app/api/operations.py, and `operations_dashboard` of backend/app/api/phase3.py.
use cyclope_central.Base.{
  ℕ, ◌+◌, ◌≡◌, refl, Bool, true, false, ◌&&◌, ◌||◌, Option, none, some, arith, ◌==◌, length,
}
use cyclope_central.Http.{ok, ok-injective, >>=-eq-ok}
use cyclope_central.Session.{select, IsClean}
use cyclope_central.Session.Query.{count}
use cyclope_central.Session.Counts.{length-select, count-both}
use cyclope_central.Models.Tenant.{User}
use cyclope_central.Database.{Db}
use cyclope_central.Auth.Roles.{require_permission}
use cyclope_central.Operations.Assets.{
  WarrantyAlerts, expires_within, expires_before, is_expiring, is_expired, warranty_alerts,
}
use cyclope_central.Operations.Assistant.{expires_by, warranty_ends_by}
use cyclope_central.Platform.Dashboard.{OperationsDashboard, widgets_of, operations_dashboard}

module _ (today : ℕ) where
  disjoint :
      (b : Bool) (expiration : Option ℕ)
      → ((b && expires_within today (today + 30) expiration)
          && (b && expires_before today expiration))
        ≡ false
  unfolding expires_within expires_before
  disjoint false expiration = refl
  disjoint true none = refl
  disjoint true (some day) = ground arith

  exhaustive :
      (b : Bool) (expiration : Option ℕ)
      → (b && expires_by (today + 30) expiration) ≡ (
          (b && expires_within today (today + 30) expiration)
          || (b && expires_before today expiration))
  unfolding expires_within expires_before expires_by
  exhaustive false expiration = refl
  exhaustive true none = refl
  exhaustive true (some day) = ground arith

  counts_add :
      (org : ℕ) (db : Db)
      → IsClean db.operations.assets
      → length (select (is_expiring today org) db.operations.assets)
          + length (select (is_expired today org) db.operations.assets)
        ≡ count (warranty_ends_by org (today + 30)) db.operations.assets
  unfolding is_expiring is_expired warranty_ends_by
  counts_add org db clean =
      rw
        (
          length-select (is_expiring today org) db.operations.assets clean,
          length-select (is_expired today org) db.operations.assets clean,
        )
        (count-both (is_expiring today org) (is_expired today org)
          (warranty_ends_by org (today + 30)) db.operations.assets
          (λ k a. disjoint (a.organization_id == org) a.warranty_expiration)
          (λ k a. exhaustive (a.organization_id == org) a.warranty_expiration))

-- With nothing pending in the table of assets, the two lists of warranties, of those that end within 30
-- days and of those that have ended, hold together exactly as many assets as the operations dashboard of
-- the same user on the same day counts as expiring: the count includes the expired ones. The day is the
-- host's for the lists and that of UTC for the dashboard, so this is for when they are the same.
pub warranty_counts_agree :
    (today : ℕ) (current : User) (db : Db) (alerts : WarrantyAlerts)
    (dashboard : OperationsDashboard)
    → IsClean db.operations.assets
    → warranty_alerts today current db ≡ ok alerts
    → operations_dashboard today current db ≡ ok dashboard
    → length alerts.expiring_30_days + length alerts.expired ≡ dashboard.widgets.warranty_expiring
unfolding warranty_alerts operations_dashboard widgets_of is_expiring is_expired
warranty_counts_agree today current db alerts dashboard clean h k =
    (let (u, p, g) = >>=-eq-ok (require_permission "assets:read" current) _ h in
      let (v, q, f) = >>=-eq-ok (require_permission "dashboard:read" current) _ k in
      rw (← ok-injective g, ← ok-injective f) (counts_add today current.organization_id db clean))
