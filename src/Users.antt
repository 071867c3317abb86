-- ===== src/Users.antt =====
-- The handlers of backend/app/api/users.py. `hash_pw` is `hash_password` with the salt of the request,
-- `lower` is `str.lower()`.
pub mod Disabled
pub mod SignIn
pub mod Created
pub mod Emails
use cyclope_central.Base.{
  ℕ, ◌+◌, String, Bool, true, false, not, Option, none, some, List, ◌==◌, is_in, is_some, map,
  if◌then◌else◌,
}
use cyclope_central.Base.Json.{Text, text_eq}
use cyclope_central.Http.{Result, ok, err, ◌>>=◌, ◌>>◌, raise_if, bad_request, conflict, not_found}
use cyclope_central.Session.{get, scalar, select, add, write}
use cyclope_central.Session.Query.{order_by}
use cyclope_central.Session.Owned.{owned}
use cyclope_central.Models.Tenant.{User}
use cyclope_central.Database.{Db, flush}
use cyclope_central.Auth.Api.{UserResponse, user_response}
use cyclope_central.Auth.Roles.{roles, require_permission}

-- `_require_same_org_user`
unfoldable pub require_same_org_user : ℕ → ℕ → Db → Result User
unfolding owned
require_same_org_user user_id organization_id db =
    owned (λ row. row.organization_id) "User not found" organization_id (get user_id db.users)

-- `collates` is the order of texts in the database.
unfoldable pub list_users : (Text → Text → Bool) → User → Db → Result (List UserResponse)
unfolding user_response
list_users collates current db = do
  require_permission "users:manage" current
  ok (
      map user_response (
        order_by (λ a b. collates a.1.email b.1.email)
          (select (λ k user. user.organization_id == current.organization_id) db.users)))

pub record UserCreateRequest : Type 0 where
  pub email : Text
  pub password : Text
  pub role : String

pub record UserPatchRequest : Type 0 where
  pub email : Option Text
  pub password : Option Text
  pub role : Option String

unfoldable pub write_user : ℕ → User → Db → Db
unfolding flush
write_user user_id user db = flush (record db { users = write user_id user db.users })

unfoldable pub role_is_valid : Option String → Bool
role_is_valid none = true
role_is_valid (some role) = is_in role roles

module _ (lower : Text → Text) (hash_pw : Text → Text) where
  unfoldable pub created_user : ℕ → UserCreateRequest → User
  created_user organization_id payload = record {
    organization_id = organization_id;
    email = lower payload.email;
    hashed_password = hash_pw payload.password;
    role = payload.role;
    is_active = true;
  }

  unfoldable pub insert_user : User → Db → Db
  unfolding flush
  insert_user user db =
      flush (record db { next_id = db.next_id + 1; users = add db.next_id user db.users })

  unfoldable pub create_user : UserCreateRequest → User → Db → Result (UserResponse × Db)
  unfolding created_user insert_user user_response
  create_user payload current db = do
    require_permission "users:manage" current
    raise_if (not (is_in payload.role roles)) (bad_request "Invalid role")
    raise_if (is_some (scalar (λ k user. text_eq user.email (lower payload.email)) db.users))
        (conflict "Email already exists")
    let user = created_user current.organization_id payload
    ok (user_response (db.next_id, user), insert_user user db)

  unfoldable pub patched_role : Option String → User → User
  patched_role none user = user
  patched_role (some role) user = record user { role = role }

  unfoldable pub patched_email : Option Text → User → User
  patched_email none user = user
  patched_email (some email) user = record user { email = lower email }

  unfoldable pub patched_password : Option Text → User → User
  patched_password none user = user
  patched_password (some password) user = record user { hashed_password = hash_pw password }

  unfoldable pub patch_user : ℕ → UserPatchRequest → User → Db → Result (UserResponse × Db)
  unfolding role_is_valid patched_role patched_email patched_password write_user user_response
  patch_user user_id payload current db = do
    require_permission "users:manage" current
    user ← require_same_org_user user_id current.organization_id db
    raise_if (not (role_is_valid payload.role)) (bad_request "Invalid role")
    let user' =
        patched_password payload.password
          (patched_email payload.email (patched_role payload.role user))
    ok (user_response (user_id, user'), write_user user_id user' db)

unfoldable pub set_active : Bool → ℕ → User → Db → Result (UserResponse × Db)
unfolding write_user user_response
set_active active user_id current db = do
  require_permission "users:manage" current
  user ← require_same_org_user user_id current.organization_id db
  let user' = record user { is_active = active }
  ok (user_response (user_id, user'), write_user user_id user' db)

unfoldable pub disable_user : ℕ → User → Db → Result (UserResponse × Db)
unfolding set_active
disable_user user_id current db = set_active false user_id current db

unfoldable pub enable_user : ℕ → User → Db → Result (UserResponse × Db)
unfolding set_active
enable_user user_id current db = set_active true user_id current db
