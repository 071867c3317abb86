-- ===== src/Auth/Api.antt =====
-- The handlers of backend/app/api/auth.py. They commit before they build the response, which needs the
-- user's organization: so the session comes back beside an error too.
pub mod Rotation
use cyclope_central.Base.{
  ℕ, String, Bool, true, false, not, ◌&&◌, ◌||◌, Option, none, some, List, [], ◌∷◌, ◌==◌, ltb,
  if◌then◌else◌,
}
use cyclope_central.Base.Int.{ℤ}
use cyclope_central.Base.Json.{Text, codes, text_eq}
use cyclope_central.Http.{Result, ok, err, ◌>>=◌, unauthorized}
use cyclope_central.Session.{get, scalar}
use cyclope_central.Session.Query.{order_by}
use cyclope_central.Models.Tenant.{Organization, User, RefreshToken}
use cyclope_central.Database.{Db, flush}
use cyclope_central.Auth.Roles.{role_permissions}
use cyclope_central.Auth.Passwords.{verify_password}
use cyclope_central.Auth.Access.{
  Claims, Credentials, require_authenticated_user, create_access_token, get_current_organization,
  issue_refresh_token, find_valid_refresh_token, revoke,
}

pub record UserResponse : Type 0 where
  pub id : ℕ
  pub organization_id : ℕ
  pub email : Text
  pub role : String
  pub is_active : Bool

-- The times of a row are those of the database.
unfoldable pub user_response : ℕ × User → UserResponse
user_response (user_id, user) = record {
  id = user_id;
  organization_id = user.organization_id;
  email = user.email;
  role = user.role;
  is_active = user.is_active;
}

pub record OrganizationResponse : Type 0 where
  pub id : ℕ
  pub name : Text
  pub slug : Text

unfoldable pub org_response : ℕ → Organization → OrganizationResponse
org_response k organization = record { id = k; name = organization.name; slug = organization.slug }

-- `s <= t`: texts are ordered by their code points
unfoldable pub text_leb : Text → Text → Bool
text_leb [] t = true
text_leb (c ∷ s) [] = false
text_leb (c ∷ s) (d ∷ t) = ltb c d || (c == d && text_leb s t)

-- `sorted(role_permissions(role))`
unfoldable pub sorted_permissions : String → List String
unfolding text_leb order_by role_permissions
sorted_permissions role = order_by (λ p q. text_leb (codes p) (codes q)) (role_permissions role)

pub record AuthResponse : Type 0 where
  pub access_token : Text
  pub refresh_token : Text
  pub token_type : String
  pub user : UserResponse
  pub organization : OrganizationResponse
  pub permissions : List String

module _ (show_uuid : ℕ → Text) (encode : Claims → Text) (issuer audience : String)
    (hash : Text → Text) (pbkdf2 : Text → List ℕ → ℕ → List ℕ) (parse : Text → Option ℤ)
    (lower : Text → Text) where
  unfoldable pub auth_response : ℕ → ℕ → User → Text → Db → Result AuthResponse
  unfolding get_current_organization user_response org_response sorted_permissions
  auth_response now user_id user refresh_token db = do
    organization ← get_current_organization user db
    ok (record {
      access_token = create_access_token show_uuid encode issuer audience now user_id user;
      refresh_token = refresh_token;
      token_type = "bearer";
      user = user_response (user_id, user);
      organization = org_response user.organization_id organization;
      permissions = sorted_permissions user.role;
    })

  -- `raw_token` is the fresh refresh token that `secrets.token_urlsafe` gives
  unfoldable pub sign_in : ℕ → Text → ℕ → User → Db → Result AuthResponse × Db
  unfolding issue_refresh_token flush auth_response
  sign_in now raw_token user_id user db =
      let committed = flush (issue_refresh_token hash now raw_token user_id user db) in
      (auth_response now user_id user raw_token committed, committed)

  unfoldable pub may_sign_in : Text → User → Bool
  may_sign_in password user =
      user.is_active && verify_password pbkdf2 parse password user.hashed_password

  unfoldable pub login : ℕ → Text → Text → Text → Db → Result AuthResponse × Db
  unfolding may_sign_in sign_in
  login now raw_token email password db =
      elim (scalar (λ k user. text_eq user.email (lower email)) db.users) [
        | none ↦ (err (unauthorized "Invalid credentials"), db)
        | some (user_id, user) ↦
            if may_sign_in password user
            then sign_in now raw_token user_id user db
            else (err (unauthorized "Invalid credentials"), db)
      ]

  unfoldable pub rotate : ℕ → Text → ℕ → RefreshToken → ℕ → User → Db → Result AuthResponse × Db
  unfolding sign_in revoke
  rotate now raw_token k token user_id user db =
      sign_in now raw_token user_id user (revoke now k token db)

  unfoldable pub refresh_for :
      ℕ → Text → ℕ → RefreshToken → Option User → Db → Result AuthResponse × Db
  unfolding rotate
  refresh_for now raw_token k token none db = (err (unauthorized "Invalid refresh token"), db)
  refresh_for now raw_token k token (some user) db =
      if user.is_active
      then rotate now raw_token k token token.user_id user db
      else (err (unauthorized "Invalid refresh token"), db)

  unfoldable pub refresh : ℕ → Text → Text → Db → Result AuthResponse × Db
  unfolding refresh_for find_valid_refresh_token
  refresh now raw_token presented db = elim (find_valid_refresh_token hash now presented db) [
    | none ↦ (err (unauthorized "Invalid refresh token"), db)
    | some (k, token) ↦ refresh_for now raw_token k token (get token.user_id db.users) db
  ]

  unfoldable pub logout : ℕ → Text → Db → Db
  unfolding revoke flush find_valid_refresh_token
  logout now presented db = elim (find_valid_refresh_token hash now presented db) [
    | none ↦ db
    | some (k, token) ↦ flush (revoke now k token db)
  ]

-- The response of `session_stub` in backend/app/api/__init__.py, from `get_current_user_stub`.
pub record SessionStub : Type 0 where
  pub authenticated : Bool
  pub user_id : Text
  pub email : Text
  pub role : String

unfoldable pub session_stub :
    (ℕ → Text)
    → (Text → Option ℕ)
    → (ℕ → Text → Option Claims)
    → ℕ
    → Option Credentials
    → Db
    → Result SessionStub
session_stub show_uuid parse_uuid decode now credentials db = do
  (user_id, user) ← require_authenticated_user parse_uuid decode now credentials db
  ok (record {
    authenticated = true;
    user_id = show_uuid user_id;
    email = user.email;
    role = user.role;
  })

pub record CurrentUserResponse : Type 0 where
  pub user : UserResponse
  pub organization : OrganizationResponse
  pub permissions : List String

-- `current_user`, for a user that is authenticated
unfoldable pub current_user : ℕ → User → Db → Result CurrentUserResponse
unfolding get_current_organization user_response org_response sorted_permissions
current_user user_id user db = do
  organization ← get_current_organization user db
  ok (record {
    user = user_response (user_id, user);
    organization = org_response user.organization_id organization;
    permissions = sorted_permissions user.role;
  })
