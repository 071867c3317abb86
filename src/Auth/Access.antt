-- ===== src/Auth/Access.antt =====
-- Access tokens, refresh tokens and the authentication of a request: backend/app/core/security.py.
-- JSON Web Tokens are the work of `jose`: `encode` signs claims, and `decode now` gives the claims of a
-- token whose signature, audience, issuer and expiry it accepts. `show_uuid` and `parse_uuid` are `str()`
-- and `UUID()`, `hash` the keyed hash of refresh tokens.
pub mod RoundTrip
use cyclope_central.Base.{
  ℕ, ◌+◌, ◌*◌, String, Bool, true, false, not, ◌&&◌, Option, none, some, List, [], ◌∷◌, ◌==◌, ltb,
  leb, is_some, str_eq, if◌then◌else◌, map,
}
use cyclope_central.Base.Json.{Text, codes, text_eq}
use cyclope_central.Http.{Result, ok, err, unauthorized, forbidden}
use cyclope_central.Session.{get, select, add, write}
use cyclope_central.Models.Tenant.{Organization, User, RefreshToken}
use cyclope_central.Database.{Db}
use cyclope_central.Auth.Tokens.{hash_token, verify_token}

pub record Claims : Type 0 where
  pub sub : Option Text
  pub org : Text
  pub role : String
  pub kind : Option String
  pub exp : ℕ
  pub iat : ℕ
  pub iss : String
  pub aud : String

pub record Credentials : Type 0 where
  pub scheme : Text
  pub credentials : Text

lower_char : ℕ → ℕ
lower_char c = if leb b'A' c && leb c b'Z' then c + 32 else c

-- `scheme.lower() != "bearer"`, where only ASCII letters matter
unfoldable pub is_bearer : Text → Bool
unfolding lower_char
is_bearer scheme = text_eq (map lower_char scheme) (codes "bearer")

module _ (show_uuid : ℕ → Text) (encode : Claims → Text) (issuer audience : String) where
  unfoldable pub access_claims : ℕ → ℕ → User → Claims
  access_claims now user_id user = record {
    sub = some (show_uuid user_id);
    org = show_uuid user.organization_id;
    role = user.role;
    kind = some "access";
    exp = now + 15 * 60000000;
    iat = now;
    iss = issuer;
    aud = audience;
  }

  unfoldable pub create_access_token : ℕ → ℕ → User → Text
  unfolding access_claims
  create_access_token now user_id user = encode (access_claims now user_id user)

module _ (parse_uuid : Text → Option ℕ) (decode : ℕ → Text → Option Claims) where
  -- `UUID(str(payload.get("sub")))`: without the claim the text is "None"
  unfoldable pub subject : Claims → Option ℕ
  subject c = parse_uuid (elim c.sub [ none ↦ codes "None" | some t ↦ t ])

  unfoldable pub is_access : Claims → Bool
  is_access c = elim c.kind [ none ↦ false | some k ↦ str_eq k "access" ]

  unfoldable pub active_user : ℕ → Db → Result (ℕ × User)
  active_user user_id db = elim (get user_id db.users) [
    | none ↦ err (unauthorized "Inactive user")
    | some user ↦ if user.is_active then ok (user_id, user) else err (unauthorized "Inactive user")
  ]

  unfoldable pub user_of_claims : Claims → Db → Result (ℕ × User)
  unfolding subject is_access active_user
  user_of_claims c db =
      if not (is_access c) then err (unauthorized "Invalid token") else (elim (subject c) [
        | none ↦ err (unauthorized "Invalid token")
        | some k ↦ active_user k db
      ])

  unfoldable pub require_authenticated_user : ℕ → Option Credentials → Db → Result (ℕ × User)
  unfolding is_bearer user_of_claims
  require_authenticated_user now none db = err (unauthorized "Bearer token required")
  require_authenticated_user now (some c) db =
      if not (is_bearer c.scheme)
      then err (unauthorized "Bearer token required")
      else (elim (decode now c.credentials) [
        | none ↦ err (unauthorized "Invalid token")
        | some claims ↦ user_of_claims claims db
      ])

unfoldable pub get_current_organization : User → Db → Result Organization
get_current_organization user db = elim (get user.organization_id db.organizations) [
  | none ↦ err (forbidden "Organization unavailable")
  | some organization ↦ ok organization
]

module _ (hash : Text → Text) where
  unfoldable pub new_refresh_token : ℕ → Text → ℕ → User → RefreshToken
  new_refresh_token now raw_token user_id user = record {
    organization_id = user.organization_id;
    user_id = user_id;
    token_hash = hash_token hash raw_token;
    expires_at = now + 14 * 86400000000;
    revoked_at = none;
  }

  unfoldable pub issue_refresh_token : ℕ → Text → ℕ → User → Db → Db
  unfolding new_refresh_token
  issue_refresh_token now raw_token user_id user db = record db {
    next_id = db.next_id + 1;
    refresh_tokens =
        add db.next_id (new_refresh_token now raw_token user_id user) db.refresh_tokens;
  }

  unfoldable pub is_live : ℕ → RefreshToken → Bool
  is_live now token = not (is_some token.revoked_at) && ltb now token.expires_at

  unfoldable pub first_match : Text → List (ℕ × RefreshToken) → Option (ℕ × RefreshToken)
  first_match raw_token [] = none
  first_match raw_token ((k, token) ∷ rest) =
      let later = first_match raw_token rest in
      if verify_token hash raw_token token.token_hash then some (k, token) else later

  unfoldable pub find_valid_refresh_token : ℕ → Text → Db → Option (ℕ × RefreshToken)
  unfolding is_live first_match
  find_valid_refresh_token now raw_token db =
      first_match raw_token (select (λ k token. is_live now token) db.refresh_tokens)

unfoldable pub revoked_token : ℕ → RefreshToken → RefreshToken
revoked_token now token = record token { revoked_at = some now }

unfoldable pub revoke : ℕ → ℕ → RefreshToken → Db → Db
unfolding revoked_token
revoke now k token db = record db {
  refresh_tokens = write k (revoked_token now token) db.refresh_tokens;
}
