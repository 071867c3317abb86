-- ===== src/Platform/Portal/SignIn.antt =====
-- A portal user that `create_portal_user` of backend/app/api/phase3.py has made can sign in with
-- `portal_login`.
use mathlib.Core.Path.{subst}
use cyclope_central.Base.{
  ℕ, ◌≡◌, refl, true, Option, none, some, List, [], arith, All, Option-cases, inl, inr, sym,
}
use cyclope_central.Base.Int.{ℤ, pos}
use cyclope_central.Base.Json.{Text, codes, text_eq_iff}
use cyclope_central.Http.{ok, ok-injective, >>=-eq-ok}
use cyclope_central.Session.{scalar, IsClean}
use cyclope_central.Session.Laws.{flush-idem_of_IsClean}
use cyclope_central.Session.Lookup.{scalar-flush-add}
use cyclope_central.Models.Tenant.{User}
use cyclope_central.Models.Platform.{PortalUser, flush_platform}
use cyclope_central.Database.{Db, flush, add_audit}
use cyclope_central.Auth.Roles.{require_permission}
use cyclope_central.Auth.Passwords.{hash_password, verify_password}
use cyclope_central.Auth.Passwords.RoundTrip.{IsByte, verify_password-hash_password}
use cyclope_central.Operations.{audit, commit_audited}
use cyclope_central.Platform.{store}
use cyclope_central.Platform.Portal.{
  PortalUserCreateRequest, PortalLoginRequest, PortalUserResponse, is_portal_role,
  insert_portal_role, find_or_add_role, insert_portal_user, is_active_with, new_portal_user,
  new_session, insert_session, create_portal_user, portal_login,
}

-- Adding a role leaves the portal users alone.
find_or_add_role-users :
    (organization_id : ℕ) (name : _) (db : Db)
    → IsClean db.platform.portal_users
    → (find_or_add_role organization_id name db).1.platform.portal_users ≡ db.platform.portal_users
unfolding find_or_add_role insert_portal_role store flush flush_platform
find_or_add_role-users organization_id name db clean =
    elim (Option-cases (scalar (is_portal_role organization_id name) db.platform.portal_roles)) [
      | inl e ↦ rw (find_or_add_role, e) (flush-idem_of_IsClean db.platform.portal_users clean)
      | inr (r, e) ↦ rw (find_or_add_role, e) refl
    ]

-- After the commit the query of `portal_login` finds the new user.
inserted_user_is_found :
    (user : PortalUser) (current_id : ℕ) (current : User) (target : Option ℕ) (db : Db)
    → IsClean db.platform.portal_users
    → scalar (is_active_with user.email) db.platform.portal_users ≡ none
    → user.is_active ≡ true
    → scalar
        (is_active_with user.email)
        (commit_audited current_id current "portal.user.created" "portal_user" target []
          (insert_portal_user user db)).platform.portal_users
      ≡ some (db.next_id, user)
unfolding commit_audited audit add_audit flush flush_platform insert_portal_user store
    is_active_with
inserted_user_is_found user current_id current target db c n a =
    scalar-flush-add (is_active_with user.email) db.next_id user db.platform.portal_users c n
      (ground (arith, (text_eq_iff user.email user.email).1 refl))

module _ (pbkdf2 : Text → List ℕ → ℕ → List ℕ) (parse : Text → Option ℤ) (hash : Text → Text) where
  login_with :
      (now : ℕ) (token : Text) (payload : PortalLoginRequest) (db : Db) (k : ℕ) (user : PortalUser)
      → scalar (is_active_with payload.email) db.platform.portal_users ≡ some (k, user)
      → verify_password pbkdf2 parse payload.password user.hashed_password ≡ true
      → portal_login hash (verify_password pbkdf2 parse) now token payload db
        ≡ ok (
          record {
            portal_token = token;
            id = k;
            email = user.email;
            organization_id = user.organization_id;
          },
          flush (
              insert_session (new_session hash (verify_password pbkdf2 parse) now k user token) db),
        )
  unfolding portal_login
  login_with now token payload db k user e v = rw (portal_login, e, v) refl

  -- A portal user that was created for an email which no active portal user had can sign in with that
  -- email and the password of the creation, at any time and whatever the new token is: the answer names
  -- the new user and the organization of its creator. This holds for the password hash of the
  -- application with a salt of bytes, where `int()` reads the text "210000" as that number and nothing is
  -- pending in the table of portal users.
  pub created_user_signs_in :
      (salt : List ℕ) (payload : PortalUserCreateRequest) (current_id : ℕ) (current : User)
      (db : Db) (response : PortalUserResponse) (db' : Db) (now : ℕ) (token : Text)
      → All IsByte salt
      → parse (codes "210000") ≡ some (pos 210000)
      → IsClean db.platform.portal_users
      → scalar (is_active_with payload.email) db.platform.portal_users ≡ none
      → create_portal_user
          (λ password. hash_password pbkdf2 parse password salt)
          payload
          current_id
          current
          db
        ≡ ok (response, db')
      → (db'' : Db) × (portal_login hash
            (verify_password pbkdf2 parse)
            now
            token
            (record { email = payload.email; password = payload.password })
            db'
          ≡ ok (
            record {
              portal_token = token;
              id = response.id;
              email = payload.email;
              organization_id = current.organization_id;
            },
            db'',
          ))
  unfolding create_portal_user new_portal_user is_active_with
  created_user_signs_in salt payload current_id current db response db' now token b i c n h =
      (let (u, p, g) = >>=-eq-ok (require_permission "portal:manage" current) _ h in
        let found = find_or_add_role current.organization_id payload.role_name db in
        let users = find_or_add_role-users current.organization_id payload.role_name db c in
        let user =
          new_portal_user (λ password. hash_password pbkdf2 parse password salt)
            current.organization_id found.0.0 payload in
        let seen =
          inserted_user_is_found user current_id current (some found.1.next_id) found.1
            (subst IsClean (sym users) c)
            (subst (λ t. scalar (is_active_with payload.email) t ≡ none) (sym users) n) refl in
        subst
          (λ r.
            (db'' : Db) × (portal_login hash (verify_password pbkdf2 parse) now token
                (record { email = payload.email; password = payload.password }) r.1
              ≡ ok (
                record {
                  portal_token = token;
                  id = r.0.id;
                  email = payload.email;
                  organization_id = current.organization_id;
                },
                db'',
              )))
          (ok-injective g)
          (
            _,
            login_with now token (record { email = payload.email; password = payload.password }) _
                found.1.next_id user seen
                (verify_password-hash_password pbkdf2 parse payload.password salt b i),
          ))
