-- ===== src/Users/Emails.antt =====
-- Requests of backend/app/api/users.py that keep the emails of users apart.
pub mod Reachable
use cyclope_central.Base.{
  ℕ, ◌≡◌, Bool, String, Option, ◌∙◌, refl, true, false, not, ◌&&◌, ◌==◌, ==_iff, none, some,
  Bool-cases, inl, inr,
}
use cyclope_central.Base.Json.{Text, text_eq, text_eq_iff}
use cyclope_central.Http.{ok, raise_if, raise_if-ok, bad_request, state-ok, >>=-eq-ok}
use mathlib.Core.Path.{subst}
use cyclope_central.Session.{get, scalar, write, add, IsClean}
use cyclope_central.Session.Laws.{flush-IsClean}
use cyclope_central.Session.Distinct.{
  IsDistinct, scalar-none, flush-add-IsDistinct, flush-write-IsDistinct,
}
use cyclope_central.Models.Tenant.{User}
use cyclope_central.Database
use cyclope_central.Database.{Db}
use cyclope_central.Auth.Api.{UserResponse}
use cyclope_central.Auth.Roles.{require_permission}
use cyclope_central.Users.{
  UserCreateRequest, UserPatchRequest, created_user, insert_user, create_user, write_user,
  role_is_valid, patched_role, patched_email, patched_password, patch_user, set_active,
  disable_user, enable_user, require_same_org_user,
}
use cyclope_central.Users.Created.{none_of, create_user-is_new}
use cyclope_central.Users.Disabled.{require_same_org_user_sound}

-- Between two requests nothing is pending, and no two users have one email.
pub record IsUnambiguous (db : Db) : Type 0 where
  pub clean : IsClean db.users
  pub emails : IsDistinct (λ (user : User). user.email) db.users

module _ (lower : Text → Text) (hash_pw : Text → Text) where
  pub insert_user-IsUnambiguous :
      (user : User) (db : Db)
      → scalar (λ k row. text_eq row.email user.email) db.users ≡ none
      → IsUnambiguous db
      → IsUnambiguous (insert_user lower hash_pw user db)
  unfolding insert_user Database.flush
  insert_user-IsUnambiguous user db n s = record {
    clean = flush-IsClean (add db.next_id user db.users);
    emails =
        flush-add-IsDistinct (λ row. row.email) db.next_id user db.users s.clean
          (λ j b g e.
            (let f = scalar-none (λ k row. text_eq row.email user.email) j b db.users s.clean n g in
              let m = (text_eq_iff b.email user.email).1 e in cc))
          s.emails;
  }

write_user-IsUnambiguous :
    (user_id : ℕ) (user : User) (db : Db)
    → ((j : ℕ) (b : User) → get j db.users ≡ some b → b.email ≡ user.email → j ≡ user_id)
    → IsUnambiguous db
    → IsUnambiguous (write_user user_id user db)
unfolding write_user Database.flush
write_user-IsUnambiguous user_id user db fresh s = record {
  clean = flush-IsClean (write user_id user db.users);
  emails = flush-write-IsDistinct (λ row. row.email) user_id user db.users s.clean fresh s.emails;
}

module _ (lower : Text → Text) (hash_pw : Text → Text) where
  pub create_user-IsUnambiguous :
      (payload : UserCreateRequest) (current : User) (db : Db) (response : UserResponse) (db' : Db)
      → create_user lower hash_pw payload current db ≡ ok (response, db')
      → IsUnambiguous db
      → IsUnambiguous db'
  unfolding created_user
  create_user-IsUnambiguous payload current db response db' h s =
      (let (free, made) = create_user-is_new lower hash_pw payload current db response db' h in
        subst (λ (r : UserResponse × Db). IsUnambiguous r.1) made
          (insert_user-IsUnambiguous lower hash_pw
            (created_user lower hash_pw current.organization_id payload) db free s))

  patched-email :
      (password : Option Text) (role : Option String) (user : User)
      → (patched_password lower hash_pw password
          (patched_email lower hash_pw none (patched_role lower hash_pw role user))).email
        ≡ user.email
  unfolding patched_password patched_email patched_role
  patched-email none none user = refl
  patched-email none (some role) user = refl
  patched-email (some password) none user = refl
  patched-email (some password) (some role) user = refl

  -- a patch that leaves the email as it is
  pub patch_user-IsUnambiguous :
      (user_id : ℕ) (password : Option Text) (role : Option String) (current : User) (db : Db)
      (response : UserResponse) (db' : Db)
      → patch_user lower hash_pw user_id
          (record { email = none; password = password; role = role })
          current
          db
        ≡ ok (response, db')
      → IsUnambiguous db
      → IsUnambiguous db'
  unfolding patch_user
  patch_user-IsUnambiguous user_id password role current db response db' h s =
      (let (u, q, g) = >>=-eq-ok (require_permission "users:manage" current) _ h in
        let (user, o, f) =
          >>=-eq-ok (require_same_org_user user_id current.organization_id db) _ g in
        let (v, r, e) =
          >>=-eq-ok (raise_if (not (role_is_valid role)) (bad_request "Invalid role")) _ f in
        let (k, t) = require_same_org_user_sound user_id current.organization_id db user o in
        let changed =
          patched_password lower hash_pw password
            (patched_email lower hash_pw none (patched_role lower hash_pw role user)) in
        subst IsUnambiguous (state-ok e) (
          write_user-IsUnambiguous user_id changed db
            (λ j b m c. s.emails j user_id b user m k (c ∙ patched-email password role user)) s))

pub set_active-IsUnambiguous :
    (active : Bool) (user_id : ℕ) (current : User) (db : Db) (response : UserResponse) (db' : Db)
    → set_active active user_id current db ≡ ok (response, db')
    → IsUnambiguous db
    → IsUnambiguous db'
unfolding set_active
set_active-IsUnambiguous active user_id current db response db' h s =
    (let (u, q, g) = >>=-eq-ok (require_permission "users:manage" current) _ h in
      let (user, o, f) = >>=-eq-ok (require_same_org_user user_id current.organization_id db) _ g in
      let (k, e) = require_same_org_user_sound user_id current.organization_id db user o in
      subst IsUnambiguous (state-ok f) (
        write_user-IsUnambiguous user_id (record user { is_active = active }) db
          (λ j b m c. s.emails j user_id b user m k c) s))
