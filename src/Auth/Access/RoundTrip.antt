-- ===== src/Auth/Access/RoundTrip.antt =====
-- An access token that `create_access_token` made, on its way back through `require_authenticated_user`.
use cyclope_central.Base.{ℕ, ◌+◌, ◌*◌, ◌<◌, ◌≡◌, refl, String, true, Option, none, some, arith}
use cyclope_central.Base.Json.{Text, codes, text_eq_iff}
use cyclope_central.Http.{ok, err, unauthorized}
use cyclope_central.Session.{get}
use cyclope_central.Models.Tenant.{User}
use cyclope_central.Database.{Db}
use cyclope_central.Auth.Access.{
  Claims, is_bearer, lower_char, access_claims, create_access_token, subject, is_access,
  active_user, user_of_claims, require_authenticated_user,
}

-- What `jose` does with the token of these claims: it is good before `exp` and refused after it.
pub record IsSignedBy (encode : Claims → Text) (decode : ℕ → Text → Option Claims) (claims : Claims)
    : Type 0 where
  pub valid : (t : ℕ) → t < claims.exp → decode t (encode claims) ≡ some claims
  pub expired : (t : ℕ) → claims.exp < t → decode t (encode claims) ≡ none

is_bearer-Bearer : is_bearer (codes "Bearer") ≡ true
unfolding is_bearer lower_char
is_bearer-Bearer = (text_eq_iff (codes "bearer") (codes "bearer")).1 refl

-- The token of an active user authenticates that user until fifteen minutes after it was made, and no one
-- after that. This holds where `jose` gives back the claims that it has signed before the time of their
-- `exp` and refuses them after it, and `UUID()` reads what `str()` prints.
pub token_authenticates :
    (show_uuid : ℕ → Text) (parse_uuid : Text → Option ℕ) (encode : Claims → Text)
    (decode : ℕ → Text → Option Claims) (issuer audience : String) (now early late user_id : ℕ)
    (user : User) (db : Db)
    → ((k : ℕ) → parse_uuid (show_uuid k) ≡ some k)
    → IsSignedBy encode decode (access_claims show_uuid encode issuer audience now user_id user)
    → early < now + 15 * 60 * 1000000
    → now + 15 * 60 * 1000000 < late
    → get user_id db.users ≡ some user
    → user.is_active ≡ true
    → (require_authenticated_user parse_uuid decode early
          (some record {
            scheme = codes "Bearer";
            credentials = create_access_token show_uuid encode issuer audience now user_id user;
          })
          db
        ≡ ok (user_id, user))
      × (require_authenticated_user parse_uuid decode late
            (some record {
              scheme = codes "Bearer";
              credentials = create_access_token show_uuid encode issuer audience now user_id user;
            })
            db
          ≡ err (unauthorized "Invalid token"))
unfolding require_authenticated_user create_access_token access_claims user_of_claims subject
    is_access active_user
token_authenticates show_uuid parse_uuid encode decode issuer audience now early late user_id user
      db p d l m g a =
    (
      rw (is_bearer-Bearer, d.valid early (omega arith), p user_id, active_user, g, a) refl,
      rw (is_bearer-Bearer, d.expired late (omega arith)) refl,
    )
