-- ===== src/Platform/Portal.antt =====
-- The portal handlers of backend/app/api/phase3.py. `hash_pw` is `hash_password` with the salt of the
-- request, `verify` is `verify_password`, `token` is what `generate_secret()` gives.
pub mod SignIn
use cyclope_central.Base.{
  ℕ, ◌+◌, ◌*◌, String, Bool, true, not, ◌&&◌, Option, none, some, List, [], ◌∷◌, ◌==◌, str_eq,
  if◌then◌else◌,
}
use cyclope_central.Base.Json.{Text, text_eq}
use cyclope_central.Http.{Result, ok, err, ◌>>=◌, ◌>>◌, raise_if, unauthorized}
use cyclope_central.Session.{scalar, add}
use cyclope_central.Models.Tenant.{User}
use cyclope_central.Models.Platform.{PortalRole, PortalUser, PortalSession}
use cyclope_central.Database.{Db, flush}
use cyclope_central.Auth.Roles.{require_permission}
use cyclope_central.Auth.Tokens.{hash_token}
use cyclope_central.Operations.{commit_audited}
use cyclope_central.Platform.{store}

pub record PortalUserCreateRequest : Type 0 where
  pub email : Text
  pub display_name : String
  pub password : Text
  pub role_name : String

pub record PortalLoginRequest : Type 0 where
  pub email : Text
  pub password : Text

unfoldable pub is_portal_role : ℕ → String → ℕ → PortalRole → Bool
is_portal_role organization_id name k role =
    (role.organization_id == organization_id) && str_eq role.name name

unfoldable pub new_portal_role : ℕ → String → PortalRole
new_portal_role organization_id name = record {
  organization_id = organization_id;
  name = name;
  permissions =
      "tickets:create" ∷ "tickets:read" ∷ "assets:read" ∷ "devices:read" ∷ "documentation:read"
      ∷ "reports:download" ∷ [];
}

unfoldable pub insert_portal_role : PortalRole → Db → Db
unfolding store flush
insert_portal_role role db =
    flush (
      store (record db.platform { portal_roles = add db.next_id role db.platform.portal_roles }) db)

-- the role with that name, added where the organization has none
unfoldable pub find_or_add_role : ℕ → String → Db → (ℕ × PortalRole) × Db
unfolding is_portal_role new_portal_role insert_portal_role
find_or_add_role organization_id name db =
    elim (scalar (is_portal_role organization_id name) db.platform.portal_roles) [
      | none ↦ (
        (db.next_id, new_portal_role organization_id name),
        insert_portal_role (new_portal_role organization_id name) db,
      )
      | some (k, role) ↦ ((k, role), db)
    ]

-- a portal user with its key and the name of its role
pub record PortalUserResponse : Type 0 where
  pub id : ℕ
  pub portal_user : PortalUser
  pub role : String

unfoldable pub insert_portal_user : PortalUser → Db → Db
unfolding store
insert_portal_user user db =
    store (record db.platform { portal_users = add db.next_id user db.platform.portal_users }) db

unfoldable pub insert_session : PortalSession → Db → Db
unfolding store
insert_session session db =
    store
      (record db.platform { portal_sessions = add db.next_id session db.platform.portal_sessions })
      db

unfoldable pub is_active_with : Text → ℕ → PortalUser → Bool
is_active_with email k user = text_eq user.email email && user.is_active

unfoldable pub new_portal_user : (Text → Text) → ℕ → ℕ → PortalUserCreateRequest → PortalUser
new_portal_user hash_pw organization_id role_id payload = record {
  organization_id = organization_id;
  portal_role_id = some role_id;
  email = payload.email;
  display_name = payload.display_name;
  hashed_password = hash_pw payload.password;
  is_active = true;
}

unfoldable pub create_portal_user :
    (Text → Text) → PortalUserCreateRequest → ℕ → User → Db → Result (PortalUserResponse × Db)
unfolding find_or_add_role new_portal_user insert_portal_user
create_portal_user hash_pw payload current_id current db = do
  require_permission "portal:manage" current
  let ((role_id, role), db') = find_or_add_role current.organization_id payload.role_name db
  let user = new_portal_user hash_pw current.organization_id role_id payload
  ok (
    record { id = db'.next_id; portal_user = user; role = role.name },
    commit_audited current_id current "portal.user.created" "portal_user" (some db'.next_id) []
        (insert_portal_user user db'),
  )

pub record PortalLoginResponse : Type 0 where
  pub portal_token : Text
  pub id : ℕ
  pub email : Text
  pub organization_id : ℕ

-- 8 hours in microseconds
abbrev pub session_length : ℕ
session_length = 8 * 3600000000

module _ (hash : Text → Text) (verify : Text → Text → Bool) where
  unfoldable pub new_session : ℕ → ℕ → PortalUser → Text → PortalSession
  unfolding hash_token
  new_session now user_id user token = record {
    organization_id = user.organization_id;
    portal_user_id = user_id;
    token_hash = hash_token hash token;
    expires_at = now + session_length;
    created_at = now;
  }

  unfoldable pub portal_login :
      ℕ → Text → PortalLoginRequest → Db → Result (PortalLoginResponse × Db)
  unfolding is_active_with new_session insert_session flush
  portal_login now token payload db =
      elim (scalar (is_active_with payload.email) db.platform.portal_users) [
        | none ↦ err (unauthorized "Invalid portal credentials")
        | some (user_id, user) ↦
            if verify payload.password user.hashed_password
            then ok (
              record {
                portal_token = token;
                id = user_id;
                email = user.email;
                organization_id = user.organization_id;
              },
              flush (insert_session (new_session now user_id user token) db),
            )
            else err (unauthorized "Invalid portal credentials")
      ]
