-- ===== src/Auth/Api/Rotation.antt =====
-- What becomes of a refresh token that is presented: `refresh` and `logout` of backend/app/api/auth.py.
use cyclope_central.Base.{ℕ, String, ◌∙◌, ◌≡◌, refl, true, false, Option, some, List, ==_refl}
use cyclope_central.Base.Int.{ℤ}
use cyclope_central.Base.Json.{Text}
use cyclope_central.Session
use cyclope_central.Session.References.{get-add}
use cyclope_central.Session.{Table, get, peek, write, add}
use cyclope_central.Session.Laws.{get-write, peek-flush, get-flush}
use cyclope_central.Models.Tenant.{User, RefreshToken}
use cyclope_central.Database
use cyclope_central.Database.{Db}
use cyclope_central.Auth.Access.{
  Claims, new_refresh_token, issue_refresh_token, is_live, revoked_token, revoke,
  find_valid_refresh_token,
}
use cyclope_central.Auth.Api.{sign_in, rotate, refresh_for, refresh, logout}

get-revoked :
    (k : ℕ) (a b : RefreshToken) (t : Table RefreshToken)
    → get k t ≡ some a
    → get k (write k b t) ≡ some b
get-revoked k a b t h = get-write k k b t ∙ rw (==_refl, h) refl

-- What the database holds under a key after a flush is what the session had there.
peek-flush_of_get :
    (k : ℕ) (a : RefreshToken) (t : Table RefreshToken)
    → get k t ≡ some a
    → peek k (Session.flush t) ≡ some a
peek-flush_of_get k a t h = peek-flush k t ∙ get-flush k a t h

module _ (show_uuid : ℕ → Text) (encode : Claims → Text) (issuer audience : String)
    (hash : Text → Text) (pbkdf2 : Text → List ℕ → ℕ → List ℕ) (parse : Text → Option ℤ)
    (lower : Text → Text) where
  peek-logout :
      (now : ℕ) (presented : Text) (db : Db) (k : ℕ) (token : RefreshToken)
      → find_valid_refresh_token hash now presented db ≡ some (k, token)
      → get k db.refresh_tokens ≡ some token
      → peek k
          (logout show_uuid encode issuer audience hash pbkdf2 parse lower now presented
            db).refresh_tokens
        ≡ some (revoked_token now token)
  unfolding logout revoke Database.flush
  peek-logout now presented db k token f g =
      rw (logout, f)
        (peek-flush_of_get k (revoked_token now token)
          (write k (revoked_token now token) db.refresh_tokens)
          (get-revoked k token (revoked_token now token) db.refresh_tokens g))

  peek-refresh :
      (now : ℕ) (raw_token presented : Text) (db : Db) (k : ℕ) (token : RefreshToken) (user : User)
      → find_valid_refresh_token hash now presented db ≡ some (k, token)
      → get k db.refresh_tokens ≡ some token
      → get token.user_id db.users ≡ some user
      → user.is_active ≡ true
      → peek k
          (refresh show_uuid encode issuer audience hash pbkdf2 parse lower now raw_token presented
            db).1.refresh_tokens
        ≡ some (revoked_token now token)
  unfolding refresh refresh_for rotate sign_in revoke issue_refresh_token Database.flush
  peek-refresh now raw_token presented db k token user f g u a =
      (let fresh = new_refresh_token hash now raw_token token.user_id user in
        let written = write k (revoked_token now token) db.refresh_tokens in
        rw (refresh, f, u, refresh_for, a)
          (peek-flush_of_get k (revoked_token now token) (add db.next_id fresh written) (
            get-add k db.next_id (revoked_token now token) fresh written
              (get-revoked k token (revoked_token now token) db.refresh_tokens g))))

  -- The refresh token that an active user presents is revoked in the database after a refresh and after a
  -- logout, and so it is never live again.
  pub presented_token_is_revoked :
      (now later : ℕ) (raw_token presented : Text) (db : Db) (k : ℕ) (token : RefreshToken)
      (user : User)
      → find_valid_refresh_token hash now presented db ≡ some (k, token)
      → get k db.refresh_tokens ≡ some token
      → get token.user_id db.users ≡ some user
      → user.is_active ≡ true
      → (peek k
            (refresh show_uuid encode issuer audience hash pbkdf2 parse lower now raw_token
              presented db).1.refresh_tokens
          ≡ some (revoked_token now token))
        × (peek k
              (logout show_uuid encode issuer audience hash pbkdf2 parse lower now presented
                db).refresh_tokens
            ≡ some (revoked_token now token))
        × (is_live hash later (revoked_token now token) ≡ false)
  unfolding is_live revoked_token
  presented_token_is_revoked now later raw_token presented db k token user f g u a = (
    peek-refresh now raw_token presented db k token user f g u a,
    peek-logout now presented db k token f g,
    refl,
  )
