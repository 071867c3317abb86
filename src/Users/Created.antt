-- ===== src/Users/Created.antt =====
-- What `create_user` of backend/app/api/users.py leaves in the session.
use cyclope_central.Base.{ℕ, ◌≡◌, refl, false, not, is_some, is_in, Option, none, some}
use cyclope_central.Base.Json.{Text, text_eq, text_eq_iff}
use cyclope_central.Http.{ok, raise_if, raise_if-ok, bad_request, conflict, ok-injective, >>=-eq-ok}
use cyclope_central.Session.{get, scalar, IsClean}
use cyclope_central.Session.Laws.{get-flush}
use cyclope_central.Session.Lookup.{scalar-flush-add, get-flush-add}
use cyclope_central.Models.Tenant.{Organization, User}
use cyclope_central.Database.{Db, flush}
use cyclope_central.Auth.Roles.{roles, require_permission}
use cyclope_central.Auth.Api.{UserResponse, user_response}
use cyclope_central.Users.{UserCreateRequest, created_user, insert_user, create_user}

module _ (lower : Text → Text) (hash_pw : Text → Text) where
  -- After the commit the query of `login` finds the new user.
  pub inserted_user_is_found :
      (email : Text) (user : User) (db : Db)
      → IsClean db.users
      → scalar (λ k row. text_eq row.email email) db.users ≡ none
      → user.email ≡ email
      → scalar (λ k row. text_eq row.email email) (insert_user lower hash_pw user db).users
        ≡ some (db.next_id, user)
  unfolding insert_user flush
  inserted_user_is_found email user db c n e =
      scalar-flush-add (λ k row. text_eq row.email email) db.next_id user db.users c n
        ((text_eq_iff user.email email).1 e)

  pub inserted_user_has_key :
      (user : User) (db : Db)
      → IsClean db.users
      → get db.next_id db.users ≡ none
      → get db.next_id (insert_user lower hash_pw user db).users ≡ some user
  unfolding insert_user flush
  inserted_user_has_key user db c n = get-flush-add db.next_id user db.users c n

  pub insert_user-organizations :
      (user : User) (k : ℕ) (organization : Organization) (db : Db)
      → get k db.organizations ≡ some organization
      → get k (insert_user lower hash_pw user db).organizations ≡ some organization
  unfolding insert_user flush
  insert_user-organizations user k organization db h = get-flush k organization db.organizations h

pub none_of : {A : Type 0} (o : Option A) → is_some o ≡ false → o ≡ none
none_of none h = refl
none_of (some a) h = cc

-- The check of `create_user` found no user with the email.
pub create_user-is_new :
    (lower hash_pw : Text → Text) (payload : UserCreateRequest) (current : User) (db : Db)
    (response : UserResponse) (db' : Db)
    → create_user lower hash_pw payload current db ≡ ok (response, db')
    → (scalar (λ k row. text_eq row.email (lower payload.email)) db.users ≡ none)
      × (Path
          (UserResponse × Db)
          (
            user_response (db.next_id, created_user lower hash_pw current.organization_id payload),
            insert_user lower hash_pw
                (created_user lower hash_pw current.organization_id payload)
                db,
          )
          (response, db'))
unfolding create_user
create_user-is_new lower hash_pw payload current db response db' h =
    (let (u, q, g) = >>=-eq-ok (require_permission "users:manage" current) _ h in
      let (v, r, f) =
        >>=-eq-ok (raise_if (not (is_in payload.role roles)) (bad_request "Invalid role")) _ g in
      let (w, s, e) =
        >>=-eq-ok
          (raise_if (is_some (scalar (λ k row. text_eq row.email (lower payload.email)) db.users))
            (conflict "Email already exists"))
          _ f in
      (
        none_of (scalar (λ k row. text_eq row.email (lower payload.email)) db.users)
            (raise_if-ok _ _ w s),
        ok-injective e,
      ))
