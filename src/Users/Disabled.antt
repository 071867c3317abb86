-- ===== src/Users/Disabled.antt =====
-- What disabling a user does to the user's access tokens: `disable_user` of backend/app/api/users.py
-- against `require_authenticated_user` of backend/app/core/security.py.
use cyclope_central.Base.{
  ℕ, ◌≡◌, refl, ◌∙◌, true, false, Option, some, ==_refl, is_in, Bool-cases, inl, inr,
}
use cyclope_central.Base.Json.{Text}
use cyclope_central.Http.{ok, >>=-eq-ok, is_ok}
use cyclope_central.Session.{get, write}
use cyclope_central.Session.Laws.{get-write, get-flush}
use cyclope_central.Session.Owned.{owned_sound}
use cyclope_central.Models.Tenant.{User}
use cyclope_central.Database
use cyclope_central.Database.{Db}
use cyclope_central.Auth.Api.{UserResponse}
use cyclope_central.Auth.Roles.{role_permissions, require_permission}
use cyclope_central.Auth.Access.{Claims, subject, is_access, active_user, user_of_claims}
use cyclope_central.Jobs.Api.Tenants.{require_permission_sound}
use cyclope_central.Users.{require_same_org_user, write_user, set_active, disable_user}

pub require_same_org_user_sound :
    (user_id organization_id : ℕ) (db : Db) (user : User)
    → require_same_org_user user_id organization_id db ≡ ok user
    → (get user_id db.users ≡ some user) × (user.organization_id ≡ organization_id)
unfolding require_same_org_user
require_same_org_user_sound user_id organization_id db user h =
    owned_sound (λ row. row.organization_id) "User not found" organization_id (get user_id db.users)
      user h

get-write_user :
    (user_id : ℕ) (user changed : User) (db : Db)
    → get user_id db.users ≡ some user
    → get user_id (write_user user_id changed db).users ≡ some changed
unfolding write_user Database.flush
get-write_user user_id user changed db h =
    get-flush user_id changed (write user_id changed db.users)
      (get-write user_id user_id changed db.users ∙ rw (==_refl, h) refl)

module _ (parse_uuid : Text → Option ℕ) (decode : ℕ → Text → Option Claims) where
  user_of_claims-inactive :
      (claims : Claims) (user_id : ℕ) (user : User) (db : Db)
      → subject parse_uuid decode claims ≡ some user_id
      → get user_id db.users ≡ some user
      → user.is_active ≡ false
      → is_ok (user_of_claims parse_uuid decode claims db) ≡ false
  unfolding user_of_claims active_user
  user_of_claims-inactive claims user_id user db s g a =
      elim (Bool-cases (is_access parse_uuid decode claims)) [
        | inl e ↦ rw (user_of_claims, e, s, active_user, g, a) refl
        | inr e ↦ rw (user_of_claims, e) refl
      ]

  -- A user is disabled only by one whose role may manage users, and in the same organization. From then on
  -- the claims of every access token that names the disabled user are refused, without waiting for their
  -- expiry.
  pub disabled_user_is_refused :
      (claims : Claims) (user_id : ℕ) (current : User) (db : Db) (shown : UserResponse) (db' : Db)
      → subject parse_uuid decode claims ≡ some user_id
      → disable_user user_id current db ≡ ok (shown, db')
      → (is_in "users:manage" (role_permissions current.role) ≡ true)
        × ((user : User) × (get user_id db.users ≡ some user)
            × (user.organization_id ≡ current.organization_id))
        × (is_ok (user_of_claims parse_uuid decode claims db') ≡ false)
  unfolding disable_user set_active
  disabled_user_is_refused claims user_id current db shown db' s h =
      (let (u, p, g) = >>=-eq-ok (require_permission "users:manage" current) _ h in
        let (user, o, f) =
          >>=-eq-ok (require_same_org_user user_id current.organization_id db) _ g in
        let (e, t) = require_same_org_user_sound user_id current.organization_id db user o in
        let disabled : User = record user { is_active = false } in
        let i : write_user user_id disabled db ≡ db' = cc in
        let r : get user_id db'.users ≡ some disabled =
          rw (← i) (get-write_user user_id user disabled db e) in
        (
          require_permission_sound "users:manage" current u p,
          (user, e, t),
          user_of_claims-inactive claims user_id disabled db' s r refl,
        ))
