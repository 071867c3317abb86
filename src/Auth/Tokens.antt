-- ===== src/Auth/Tokens.antt =====
-- backend/app/core/token_hashing.py. The keyed hash is HMAC-SHA256 under the application's pepper, a
-- function `hash` on texts that the model takes as a parameter.
use cyclope_central.Base.{◌≡◌, ◌↔◌, Bool, true}
use cyclope_central.Base.Json.{Text, text_eq, text_eq_iff}

module _ (hash : Text → Text) where
  unfoldable pub hash_token : Text → Text
  hash_token token = hash token

  -- `hmac.compare_digest(hash_token(token), token_hash)`
  unfoldable pub verify_token : Text → Text → Bool
  unfolding hash_token
  verify_token token token_hash = text_eq (hash_token token) token_hash

  pub verify_token_iff :
      (token token_hash : Text)
      → (verify_token token token_hash ≡ true) ↔ (hash_token token ≡ token_hash)
  unfolding verify_token
  verify_token_iff token token_hash = text_eq_iff (hash token) token_hash
