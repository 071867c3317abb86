-- ===== src/Remote/Launches.antt =====
-- What a launch requires and what it leaves behind: `launch_device_remote` of backend/app/api/remote.py.
use cyclope_central.Base.{ℕ, ◌≡◌, refl, true, some, [], ◌∷◌, ◌++◌, is_in, Option-cases, inl, inr}
use cyclope_central.Http.{ok, >>=-eq-ok}
use cyclope_central.Session.{get}
use cyclope_central.Models.Tenant.{User}
use cyclope_central.Models.Device.{Device}
use cyclope_central.Models.Remote.{RemoteSessionAudit}
use cyclope_central.Database.{Db, flush, add_audit}
use cyclope_central.Auth.Roles.{role_permissions, require_permission}
use cyclope_central.Jobs.Api.{owned_device}
use cyclope_central.Jobs.Api.Tenants.{require_permission_sound, owned_device_sound}
use cyclope_central.Remote.{
  LaunchResponse, link_of, launchable, named_provider, provider_key_of, key_in, session_audit,
  launch, launch_device_remote,
}

-- A launch that is answered was asked for by a user whose role may launch sessions, on a device of the
-- user's organization whose link has the RustDesk id that is returned, and it adds one row to the audit
-- of sessions, with the user and the launch URL of the response.
pub launch_is_audited :
    (now device_id current_id : ℕ) (current : User) (db : Db) (response : LaunchResponse) (db' : Db)
    → launch_device_remote now device_id current_id current db ≡ ok (response, db')
    → (is_in "remote:launch" (role_permissions current.role) ≡ true)
      × (launchable (link_of current.organization_id device_id db) ≡ some response.rustdesk_id)
      × ((device : Device) × (audit : RemoteSessionAudit) × (get device_id db.devices ≡ some device)
          × (device.organization_id ≡ current.organization_id)
          × (db'.remote_audits ≡ db.remote_audits ++ audit ∷ [])
          × (audit.actor_user_id ≡ some current_id)
          × (audit.launch_url ≡ response.launch_url))
unfolding launch_device_remote launch session_audit add_audit flush
launch_is_audited now device_id current_id current db response db' h =
    (let (u, p, g) = >>=-eq-ok (require_permission "remote:launch" current) _ h in
      let (device, o, f) =
        >>=-eq-ok (owned_device "Device not found" device_id current.organization_id db) _ g in
      let (e, t) =
        owned_device_sound "Device not found" device_id current.organization_id db device o in
      let provider_id =
        key_in
          (named_provider (provider_key_of (link_of current.organization_id device_id db)) db) in
      elim (Option-cases (launchable (link_of current.organization_id device_id db))) [
        | inl n ↦ cc (rw n at f)
        | inr (rustdesk_id, n) ↦
            (let k = rw n at f in
              let i : (launch now device_id current_id current device provider_id rustdesk_id db).0
                  ≡ response =
                cc in
              let j : (launch now device_id current_id current device provider_id rustdesk_id db).1
                  ≡ db' =
                cc in
              rw (← i, ← j)
                (
                  require_permission_sound "remote:launch" current u p,
                  n,
                  (
                    device,
                    session_audit now current.organization_id device_id current_id provider_id
                        device rustdesk_id,
                    e,
                    t,
                    refl,
                    refl,
                    refl,
                  ),
                ))
      ])
