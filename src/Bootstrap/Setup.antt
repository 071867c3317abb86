-- ===== src/Bootstrap/Setup.antt =====
-- `bootstrap_status`, `create_first_owner` and the handler `setup`: backend/app/core/bootstrap.py and
-- backend/app/api/bootstrap.py. What the password check, the slug, the password hash, lower case and the
-- token hash do comes in as functions.
pub mod Once
pub mod Closed
pub mod Later
use cyclope_central.Base.{
  ℕ, ◌+◌, String, Bool, true, false, not, ◌&&◌, Option, none, some, List, [], ◌∷◌, ◌++◌, ltb,
  str_eq, if◌then◌else◌, length,
}
use cyclope_central.Base.Json.{Text}
use cyclope_central.Http.{
  Error, http, value_error, Result, ok, err, ◌>>=◌, ◌>>◌, raise_if, conflict, bad_request,
}
use cyclope_central.Session.{select, add}
use cyclope_central.Models.Tenant.{Organization, User}
use cyclope_central.Database.{Db, flush}
use cyclope_central.Auth.Access.{issue_refresh_token}

pub record SetupRequest : Type 0 where
  pub organization_name : Text
  pub owner_email : Text
  pub owner_password : Text

unfoldable pub is_owner : ℕ → User → Bool
is_owner k user = str_eq user.role "owner" && user.is_active

-- whether there is an organization, and an active owner
unfoldable pub bootstrap_status : Db → Bool × Bool
unfolding is_owner
bootstrap_status db = (
  ltb 0 (length (select (λ k (o : Organization). true) db.organizations)),
  ltb 0 (length (select is_owner db.users)),
)

unfoldable pub setup_required : Db → Bool
unfolding bootstrap_status
setup_required db = let (has_org, has_owner) = bootstrap_status db in not (has_org && has_owner)

module _ (check : Text → Result (Unit {0})) (slugify lower hash_pw hash : Text → Text) where
  unfoldable pub first_owner : ℕ → SetupRequest → User
  first_owner organization_id payload = record {
    organization_id = organization_id;
    email = lower payload.owner_email;
    hashed_password = hash_pw payload.owner_password;
    role = "owner";
    is_active = true;
  }

  unfoldable pub insert_organization : SetupRequest → Db → Db
  insert_organization payload db =
      let organization : Organization = record {
        name = payload.organization_name;
        slug = slugify payload.organization_name;
      } in
      flush (record db {
        next_id = db.next_id + 1;
        organizations = add db.next_id organization db.organizations;
      })

  unfoldable pub insert_owner : User → Db → Db
  insert_owner user db =
      flush (record db { next_id = db.next_id + 1; users = add db.next_id user db.users })

  -- the owner with its key, and the session
  unfoldable pub create_first_owner : ℕ → Text → SetupRequest → Db → Result ((ℕ × User) × Db)
  unfolding first_owner insert_organization insert_owner issue_refresh_token
  create_first_owner now raw_token payload db = do
    raise_if (not (setup_required db)) (http 500 "Bootstrap setup has already completed")
    check payload.owner_password
    let user = first_owner db.next_id payload
    let with_org = insert_organization payload db
    let with_owner = insert_owner user with_org
    ok (
      (with_org.next_id, user),
      issue_refresh_token hash now raw_token with_org.next_id user with_owner,
    )

  -- a `ValueError` becomes a 400
  unfoldable pub as_bad_request {ℓ} : {A : Type ℓ} → Result A → Result A
  as_bad_request (ok a) = ok a
  as_bad_request (err (http code detail)) = err (http code detail)
  as_bad_request (err (value_error detail)) = err (bad_request detail)

  -- the handler up to its commit
  unfoldable pub setup : ℕ → Text → SetupRequest → Db → Result ((ℕ × User) × Db)
  unfolding as_bad_request create_first_owner
  setup now raw_token payload db = do
    raise_if (not (setup_required db)) (conflict "Bootstrap setup has already completed")
    (owner, created) ← as_bad_request (create_first_owner now raw_token payload db)
    ok (owner, flush created)
