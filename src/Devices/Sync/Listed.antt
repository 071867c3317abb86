-- ===== src/Devices/Sync/Listed.antt =====
-- What the dashboard of backend/app/api/dashboard.py shows once `list_devices` of
-- backend/app/api/devices.py has written the status of the devices.
use mathlib.Core.Path.{subst}
use cyclope_central.Base.{
  ℕ, ◌+◌, ◌*◌, ◌-◌, ◌<◌, ◌≤◌, ◌≡◌, refl, ◌∙◌, String, Bool, false, not, ◌&&◌, Option, none, some,
  List, [], ◌∷◌, arith, ◌==◌, if◌then◌else◌, Bool-cases, inl, inr,
}
use cyclope_central.Http.{ok, ok-injective, state-ok, >>=-eq-ok}
use cyclope_central.Session.{Table, select, IsClean}
use cyclope_central.Session.Rows.{AllRows}
use cyclope_central.Session.Keys.{HasDistinctKeys}
use cyclope_central.Session.Query.{count, order_by}
use cyclope_central.Models.Tenant.{User}
use cyclope_central.Models.Device.{Device}
use cyclope_central.Database.{Db, flush}
use cyclope_central.Auth.Roles.{require_permission}
use cyclope_central.Devices.{
  DeviceSummary, seen_within, is_online, sync_status, sync_devices, write_device, list_devices,
}
use cyclope_central.Devices.Summary.{DashboardSummary, counts_online, dashboard_summary}
use cyclope_central.Devices.Summary.Agreement.{online_and_offline}
use cyclope_central.Operations.Assistant.{is_offline}
use cyclope_central.Devices.Sync.{query_lists}
use cyclope_central.Devices.Sync.Writes.{writes, count-flush-writes}

module _ (offline_after now : ℕ) where
  sync_devices-writes :
      (l : List (ℕ × Device)) (db : Db)
      → (sync_devices offline_after now l db).devices
        ≡ writes (sync_status offline_after now) l db.devices
  unfolding sync_devices write_device
  sync_devices-writes [] db = refl
  sync_devices-writes ((k, d) ∷ rest) db =
      sync_devices-writes rest (write_device k (sync_status offline_after now d) db)

  -- the device is the organization's and was seen within the limit
  abbrev pub is_seen : ℕ → ℕ → Device → Bool
  is_seen org k device =
      (device.organization_id == org) && seen_within offline_after now device.last_seen_at

  abbrev pub is_silent : ℕ → ℕ → Device → Bool
  is_silent org k device =
      (device.organization_id == org) && not (seen_within offline_after now device.last_seen_at)

  module _ (collates : String → String → Bool) (current : User) (db : Db)
      (clean : IsClean db.devices) (keys : HasDistinctKeys db.devices) where
    listed : List (ℕ × Device)
    listed =
        order_by (λ a b. collates a.1.hostname b.1.hostname)
          (select (λ k d. d.organization_id == current.organization_id) db.devices)

    after : Db
    after = flush (sync_devices offline_after now listed db)

    counts_after :
        (q s : ℕ → Device → Bool)
        → ((k : ℕ) (d : Device)
            → q k (
                if d.organization_id == current.organization_id
                then sync_status offline_after now d
                else d)
              ≡ s k d)
        → count q after.devices ≡ count s db.devices
    unfolding after listed flush
    counts_after q s e = rw (sync_devices-writes listed db) (
        count-flush-writes (sync_status offline_after now)
          (λ k d. d.organization_id == current.organization_id) q s listed db.devices clean
          (query_lists (λ k d. d.organization_id == current.organization_id)
            (λ a b. collates a.1.hostname b.1.hostname) db.devices keys)
          e)

    seen_are_online :
        count (counts_online current.organization_id) after.devices
        ≡ count (is_seen current.organization_id) db.devices
    unfolding counts_online sync_status is_online
    seen_are_online =
        counts_after (counts_online current.organization_id) (is_seen current.organization_id)
          (λ k d. elim (Bool-cases (d.organization_id == current.organization_id)) [
            | inl b ↦ rw b (rw b refl)
            | inr b ↦ rw b (rw b refl)
          ])

    silent_are_offline :
        count (is_offline current.organization_id) after.devices
        ≡ count (is_silent current.organization_id) db.devices
    unfolding is_offline sync_status is_online
    silent_are_offline =
        counts_after (is_offline current.organization_id) (is_silent current.organization_id)
          (λ k d. elim (Bool-cases (d.organization_id == current.organization_id)) [
            | inl b ↦ rw b (rw b refl)
            | inr b ↦ rw b (rw b refl)
          ])

    -- Once a user has listed the devices at time `now`, the dashboard counts as online exactly the
    -- devices of the organization that were seen within the limit, and as offline exactly the others,
    -- whatever their status said before. This holds where nothing was pending in the table of devices
    -- and no two of its rows have one key.
    pub listing_refreshes_dashboard :
        (summaries : List DeviceSummary) (db' : Db) (s : DashboardSummary)
        → list_devices offline_after now collates current db ≡ ok (summaries, db')
        → dashboard_summary current db' ≡ ok s
        → (s.online_devices ≡ count (is_seen current.organization_id) db.devices)
          × (s.offline_devices ≡ count (is_silent current.organization_id) db.devices)
    unfolding list_devices dashboard_summary after listed
    listing_refreshes_dashboard summaries db' s h d =
        (let (u, p, g) = >>=-eq-ok (require_permission "devices:read" current) _ h in
          let i : after ≡ db' = state-ok g in
          let (v, q, f) = >>=-eq-ok (require_permission "dashboard:read" current) _ d in
          let sum = online_and_offline current.organization_id db' in
          let on =
            subst
              (λ m.
                count (counts_online current.organization_id) m.devices
                ≡ count (is_seen current.organization_id) db.devices)
              i seen_are_online in
          let off =
            subst
              (λ m.
                count (is_offline current.organization_id) m.devices
                ≡ count (is_silent current.organization_id) db.devices)
              i silent_are_offline in
          rw (← ok-injective f) (on, omega (arith, sum, off)))

-- The device was not seen later than `t`.
abbrev pub IsSilentSince : ℕ → Device → Type 0
IsSilentSince t device = elim device.last_seen_at [ none ↦ Unit | some last_seen ↦ last_seen ≤ t ]

module _ (offline_after now t : ℕ) (late : t + 1000000 * offline_after < now) where
  silent-unseen :
      (last_seen : Option ℕ)
      → (elim last_seen as (λ o. Type 0) [ none ↦ Unit | some s ↦ s ≤ t ])
      → seen_within offline_after now last_seen ≡ false
  unfolding seen_within
  silent-unseen none h = refl
  silent-unseen (some s) h = ground arith

  none_seen :
      (org : ℕ) (devices : Table Device)
      → IsClean devices
      → AllRows (IsSilentSince t) devices
      → count (is_seen offline_after now org) devices ≡ 0
  unfolding count
  none_seen org [] c h = refl
  none_seen org (r ∷ rest) c h =
      rw (c.0, silent-unseen r.live.last_seen_at h.0) (ground (arith, none_seen org rest c.1 h.1))

  -- Devices that are not heard of any more do go offline: for every time `t` after which no device was
  -- seen, each listing of the devices later than the limit after `t` leaves a database in which the
  -- dashboard counts no device of the organization as online, and all of them as offline. This holds
  -- where nothing was pending in the table of devices and no two of its rows have one key.
  pub silent_devices_go_offline :
      (collates : String → String → Bool) (current : User) (db : Db)
      (summaries : List DeviceSummary) (db' : Db) (s : DashboardSummary)
      → IsClean db.devices
      → HasDistinctKeys db.devices
      → AllRows (IsSilentSince t) db.devices
      → list_devices offline_after now collates current db ≡ ok (summaries, db')
      → dashboard_summary current db' ≡ ok s
      → (s.online_devices ≡ 0) × (s.offline_devices ≡ s.total_devices)
  unfolding dashboard_summary
  silent_devices_go_offline collates current db summaries db' s clean keys silent h d =
      (let (on, off) =
          listing_refreshes_dashboard offline_after now collates current db clean keys summaries db'
            s h d in
        let zero = none_seen current.organization_id db.devices clean silent in
        let (v, q, f) = >>=-eq-ok (require_permission "dashboard:read" current) _ d in
        let rest : s.offline_devices ≡ s.total_devices - s.online_devices =
          rw (← ok-injective f) refl in
        (on ∙ zero, omega (arith, on, zero, rest)))
