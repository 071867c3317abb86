-- ===== src/Platform/Keys.antt =====
-- The API key handlers of backend/app/api/phase3.py. `secret` is what `generate_secret()` gives, `hash`
-- is the keyed hash, `list_str` is the text of a list of scopes, `created` is the time of the database.
use cyclope_central.Base.{ℕ, String, Option, none, some, List, [], ◌∷◌, ◌++◌, ◌==◌, leb, take, map}
use cyclope_central.Base.Json.{Text, str, compound, codes}
use cyclope_central.Http.{Result, ok, ◌>>◌}
use cyclope_central.Session.{select, add}
use cyclope_central.Session.Query.{order_by}
use cyclope_central.Models.Tenant.{User}
use cyclope_central.Models.Platform.{ApiKey}
use cyclope_central.Database.{Db}
use cyclope_central.Auth.Roles.{require_permission}
use cyclope_central.Auth.Tokens.{hash_token}
use cyclope_central.Operations.{commit_audited}
use cyclope_central.Platform.{store}

pub record ApiKeyCreateRequest : Type 0 where
  pub name : String
  pub scopes : List String

-- the one response that shows the key itself
pub record ApiKeyCreated : Type 0 where
  pub id : ℕ
  pub name : String
  pub prefix : Text
  pub scopes : List String
  pub api_key : Text

pub record ApiKeyListed : Type 0 where
  pub id : ℕ
  pub name : String
  pub prefix : Text
  pub scopes : List String
  pub revoked_at : Option ℕ
  pub last_used_at : Option ℕ

unfoldable pub raw_key_of : Text → Text
raw_key_of secret = codes "cc_" ++ secret

unfoldable pub insert_api_key : ApiKey → Db → Db
unfolding store
insert_api_key key db =
    store (record db.platform { api_keys = add db.next_id key db.platform.api_keys }) db

module _ (hash : Text → Text) (list_str : List String → Text) where
  unfoldable pub new_api_key : ℕ → ℕ → Text → ApiKeyCreateRequest → ApiKey
  unfolding hash_token
  new_api_key created organization_id raw_key payload = record {
    organization_id = organization_id;
    name = payload.name;
    key_hash = hash_token hash raw_key;
    prefix = take 12 raw_key;
    scopes = payload.scopes;
    last_used_at = none;
    revoked_at = none;
    created_at = created;
  }

  unfoldable pub create_api_key :
      ℕ → Text → ApiKeyCreateRequest → ℕ → User → Db → Result (ApiKeyCreated × Db)
  unfolding raw_key_of new_api_key insert_api_key
  create_api_key created secret payload current_id current db = do
    require_permission "api_keys:manage" current
    let raw_key = raw_key_of secret
    let key = new_api_key created current.organization_id raw_key payload
    ok (
      record {
        id = db.next_id;
        name = key.name;
        prefix = key.prefix;
        scopes = key.scopes;
        api_key = raw_key;
      },
      commit_audited current_id current "api_key.created" "api_key" (some db.next_id)
          (("prefix", str key.prefix) ∷ ("scopes", compound (list_str payload.scopes)) ∷ [])
          (insert_api_key key db),
    )

unfoldable pub listed_key : ℕ × ApiKey → ApiKeyListed
listed_key (k, key) = record {
  id = k;
  name = key.name;
  prefix = key.prefix;
  scopes = key.scopes;
  revoked_at = key.revoked_at;
  last_used_at = key.last_used_at;
}

unfoldable pub list_api_keys : User → Db → Result (List ApiKeyListed)
unfolding listed_key
list_api_keys current db = do
  require_permission "api_keys:manage" current
  ok (
      map listed_key (
        order_by (λ a b. leb b.1.created_at a.1.created_at)
          (select (λ k key. key.organization_id == current.organization_id) db.platform.api_keys)))
