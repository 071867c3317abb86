-- ===== src/Users/SignIn.antt =====
-- A user that `create_user` of backend/app/api/users.py has made, at `login` of backend/app/api/auth.py
-- and then at `require_authenticated_user` of backend/app/core/security.py.
use mathlib.Core.Path.{subst}
use cyclope_central.Base.{
  ℕ, ◌+◌, ◌*◌, ◌<◌, ◌≡◌, refl, String, true, Option, none, some, List, All, sym, arith,
}
use cyclope_central.Base.Int.{ℤ, pos}
use cyclope_central.Base.Json.{Text, codes, text_eq}
use cyclope_central.Http.{ok}
use cyclope_central.Session.{get, scalar, IsClean}
use cyclope_central.Session.Laws.{get-flush}
use cyclope_central.Models.Tenant.{Organization, User}
use cyclope_central.Database.{Db, flush}
use cyclope_central.Auth.Passwords.{hash_password, verify_password}
use cyclope_central.Auth.Passwords.RoundTrip.{IsByte, verify_password-hash_password}
use cyclope_central.Auth.Access.{
  Claims, access_claims, create_access_token, get_current_organization, issue_refresh_token,
  require_authenticated_user,
}
use cyclope_central.Auth.Access.RoundTrip.{IsSignedBy, token_authenticates}
use cyclope_central.Auth.Api.{
  UserResponse, AuthResponse, user_response, org_response, sorted_permissions, auth_response,
  may_sign_in, sign_in, login,
}
use cyclope_central.Users.{UserCreateRequest, created_user, insert_user, create_user}
use cyclope_central.Users.Created.{
  inserted_user_is_found, inserted_user_has_key, insert_user-organizations, create_user-is_new,
}

module _ (show_uuid : ℕ → Text) (encode : Claims → Text) (issuer audience : String)
    (hash : Text → Text) (pbkdf2 : Text → List ℕ → ℕ → List ℕ) (parse : Text → Option ℤ)
    (lower : Text → Text) where
  -- the answer to a login with the right password
  answer_to : ℕ → Text → ℕ → User → Organization → AuthResponse
  answer_to now token user_id user organization = record {
    access_token = create_access_token show_uuid encode issuer audience now user_id user;
    refresh_token = token;
    token_type = "bearer";
    user = user_response (user_id, user);
    organization = org_response user.organization_id organization;
    permissions = sorted_permissions user.role;
  }

  login_with :
      (now : ℕ) (token email password : Text) (user_id : ℕ) (user : User)
      (organization : Organization) (db : Db)
      → scalar (λ k row. text_eq row.email (lower email)) db.users ≡ some (user_id, user)
      → user.is_active ≡ true
      → verify_password pbkdf2 parse password user.hashed_password ≡ true
      → get user.organization_id db.organizations ≡ some organization
      → login show_uuid encode issuer audience hash pbkdf2 parse lower now token email password db
        ≡ (
          ok (answer_to now token user_id user organization),
          flush (issue_refresh_token hash now token user_id user db),
        )
  unfolding login may_sign_in sign_in auth_response answer_to get_current_organization
      issue_refresh_token flush
  login_with now token email password user_id user organization db s a v o =
      rw
        (
          login,
          s,
          a,
          v,
          sign_in,
          auth_response,
          get_current_organization,
          get-flush user.organization_id organization db.organizations o,
        )
        refl

  login_keeps_user :
      (now : ℕ) (token : Text) (user_id : ℕ) (user : User) (db : Db)
      → get user_id db.users ≡ some user
      → get user_id (flush (issue_refresh_token hash now token user_id user db)).users ≡ some user
  unfolding flush issue_refresh_token
  login_keeps_user now token user_id user db h = get-flush user_id user db.users h

  abbrev pub newcomer : List ℕ → ℕ → UserCreateRequest → User
  newcomer salt organization_id payload =
      created_user lower (λ password. hash_password pbkdf2 parse password salt) organization_id
        payload

  -- A user that was created signs in with the email of the creation, whatever its letters' case is, and
  -- with its password, at any time and whatever the new refresh token is. The answer shows the user that
  -- the creation showed, and its access token authenticates the new user until its fifteen minutes are
  -- over. This holds for the password hash of the application with a salt of bytes, where `int()` reads
  -- the text "210000" as that number, `jose` gives back the claims that it has signed before the time of
  -- their `exp` and refuses them after it, and `UUID()` reads what `str()` prints, where the creator's organization exists, nothing is pending in
  -- the table of users and no user has the key of the new one.
  pub created_user_logs_in :
      (parse_uuid : Text → Option ℕ) (decode : ℕ → Text → Option Claims) (salt : List ℕ)
      (payload : UserCreateRequest) (current : User) (organization : Organization) (db : Db)
      (response : UserResponse) (db' : Db) (now later : ℕ) (token email : Text)
      → All IsByte salt
      → parse (codes "210000") ≡ some (pos 210000)
      → ((k : ℕ) → parse_uuid (show_uuid k) ≡ some k)
      → IsSignedBy encode decode (
          access_claims show_uuid encode issuer audience now db.next_id
            (newcomer salt current.organization_id payload))
      → later < now + 15 * 60 * 1000000
      → get current.organization_id db.organizations ≡ some organization
      → IsClean db.users
      → get db.next_id db.users ≡ none
      → lower email ≡ lower payload.email
      → create_user lower (λ password. hash_password pbkdf2 parse password salt) payload current db
        ≡ ok (response, db')
      → (answer : AuthResponse) × (db'' : Db) × (login show_uuid encode issuer audience hash pbkdf2
            parse lower now token email payload.password db'
          ≡ (ok answer, db''))
        × (answer.user ≡ response)
        × (require_authenticated_user parse_uuid decode later
              (some record { scheme = codes "Bearer"; credentials = answer.access_token })
              db''
            ≡ ok (response.id, newcomer salt current.organization_id payload))
  unfolding created_user user_response answer_to
  created_user_logs_in parse_uuid decode salt payload current organization db response db' now later
        token email b i p d l o c n e h =
      (let hash_pw : Text → Text = (λ password. hash_password pbkdf2 parse password salt) in
        let user = newcomer salt current.organization_id payload in
        let (free, made) = create_user-is_new lower hash_pw payload current db response db' h in
        let inserted = insert_user lower hash_pw user db in
        let seen =
          subst
            (λ m. scalar (λ k row. text_eq row.email m) inserted.users ≡ some (db.next_id, user))
            (sym e)
            (inserted_user_is_found lower hash_pw (lower payload.email) user db c free refl) in
        subst
          (λ r.
            (answer : AuthResponse) × (db'' : Db) × (login show_uuid encode issuer audience hash
                pbkdf2 parse lower now token email payload.password r.1
              ≡ (ok answer, db''))
            × (answer.user ≡ r.0)
            × (require_authenticated_user parse_uuid decode later
                  (some record { scheme = codes "Bearer"; credentials = answer.access_token }) db''
                ≡ ok (r.0.id, user)))
          made
          (
            answer_to now token db.next_id user organization,
            flush (issue_refresh_token hash now token db.next_id user inserted),
            login_with now token email payload.password db.next_id user organization inserted seen
                refl (verify_password-hash_password pbkdf2 parse payload.password salt b i)
                (insert_user-organizations lower hash_pw user current.organization_id organization
                  db o),
            refl,
            (token_authenticates show_uuid parse_uuid encode decode issuer audience now later
                (now + 15 * 60 * 1000000 + 1) db.next_id user _ p d l (omega arith)
                (login_keeps_user now token db.next_id user inserted
                  (inserted_user_has_key lower hash_pw user db c n))
                refl).0,
          ))
