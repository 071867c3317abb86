-- ===== src/Examples/Access.antt =====
-- The theorems on passwords, tokens, roles, the first setup and remote sessions at concrete inputs.
use cyclope_central.Base.{
  ℕ, ◌≤◌, ◌<◌, ◌≡◌, ◌↔◌, refl, String, Bool, true, false, not, Option, none, some, List, [], ◌∷◌,
  ◌++◌, All, is_in, arith, ltb, if◌then◌else◌,
}
use cyclope_central.Base.Json.{Text, codes}
use cyclope_central.Http.{ok, err, conflict, unauthorized}
use cyclope_central.Session.{get, peek}
use cyclope_central.Models.Tenant.{User}
use cyclope_central.Models.Device.{Device}
use cyclope_central.Models.Remote.{RemoteSessionAudit}
use cyclope_central.Database.{Db, empty}
use cyclope_central.Auth.Roles.{role_permissions}
use cyclope_central.Auth.Passwords.{hash_password, verify_password}
use cyclope_central.Auth.Passwords.RoundTrip.{verify_password-hash_password}
use cyclope_central.Auth.Access.{
  Claims, Credentials, create_access_token, require_authenticated_user, is_live, revoked_token,
  find_valid_refresh_token,
}
use cyclope_central.Auth.Access.RoundTrip.{IsSignedBy, token_authenticates}
use cyclope_central.Auth.Api.{UserResponse, user_response, refresh, logout}
use cyclope_central.Auth.Api.Rotation.{presented_token_is_revoked}
use cyclope_central.Bootstrap.Setup.{SetupRequest, setup_required, setup}
use cyclope_central.Bootstrap.Setup.Once.{setup_happens_once}
use cyclope_central.Remote.{LaunchResponse, link_of, launchable, launch_device_remote}
use cyclope_central.Remote.Launches.{launch_is_audited}
use cyclope_central.Bootstrap.Setup.Later.{creates, no_more, and_then}
use cyclope_central.Users.{UserCreateRequest, create_user, disable_user}
use cyclope_central.Users.Disabled.{disabled_user_is_refused}
use cyclope_central.Http.{is_ok}
use cyclope_central.Auth.Access.{user_of_claims}
use cyclope_central.Examples.{
  saved, value_of, test_hash, test_parse, boss, session_token, office_db,
}

-- a derivation that is good enough for tests: the salt
abbrev stretched : Text → List ℕ → ℕ → List ℕ
stretched password salt rounds = salt

abbrev salt : List ℕ
salt = 1 ∷ 171 ∷ 255 ∷ []

verify_password-hash_password_example :
    verify_password stretched test_parse
      (codes "correct horse")
      (hash_password stretched test_parse (codes "correct horse") salt)
    ≡ true
verify_password-hash_password_example =
    verify_password-hash_password stretched test_parse (codes "correct horse") salt
      (omega arith, (omega arith, (omega arith, tt))) refl

abbrev shown : ℕ → Text
shown n = n ∷ []

abbrev signed : Claims → Text
signed c = []

presented_token_is_revoked_example :
    (peek 8
        (refresh shown signed "i" "a" test_hash stretched test_parse
          (λ t. t)
          50
          (codes "fresh")
          (codes "refresh")
          office_db).1.refresh_tokens
      ≡ some (revoked_token 50 session_token))
    × (peek 8
          (logout shown signed "i" "a" test_hash stretched test_parse
            (λ t. t)
            50
            (codes "refresh")
            office_db).refresh_tokens
        ≡ some (revoked_token 50 session_token))
    × (is_live test_hash 60 (revoked_token 50 session_token) ≡ false)
unfolding find_valid_refresh_token cyclope_central.Session.select
    cyclope_central.Auth.Tokens.verify_token cyclope_central.Base.Json.text_eq get
presented_token_is_revoked_example =
    presented_token_is_revoked shown signed "i" "a" test_hash stretched test_parse (λ t. t) 50 60
      (codes "fresh") (codes "refresh") office_db 8 session_token boss refl refl refl refl

-- the first setup, of an empty database
abbrev first_setup : SetupRequest
first_setup = record {
  organization_name = codes "Office";
  owner_email = codes "boss@office.example";
  owner_password = codes "Correct Horse 9";
}

abbrev after_setup : (ℕ × User) × Db
after_setup =
    value_of ((0, boss), empty)
      (setup (λ t. ok tt) (λ t. t) (λ t. t) (λ t. t) test_hash 50 (codes "raw") first_setup empty)

-- the owner adds a colleague
abbrev colleague : UserCreateRequest
colleague = record {
  email = codes "ada@office.example";
  password = codes "correct horse";
  role = "technician";
}

abbrev joined : UserResponse × Db
joined =
    value_of (user_response after_setup.0, after_setup.1)
      (create_user (λ t. t) (λ t. t) colleague after_setup.0.1 after_setup.1)

setup_happens_once_example :
    (setup_required joined.1 ≡ false)
    × (setup
          (λ t. ok tt)
          (λ t. t)
          (λ t. t)
          (λ t. t)
          test_hash
          60
          (codes "again")
          first_setup
          joined.1
        ≡ err (conflict "Bootstrap setup has already completed"))
unfolding setup setup_required cyclope_central.Session.select cyclope_central.Session.scalar
    cyclope_central.Database.flush cyclope_central.Session.flush get create_user
    cyclope_central.Auth.Roles.require_permission is_in cyclope_central.Base.Json.text_eq
    cyclope_central.Session.add
setup_happens_once_example =
    setup_happens_once (λ t. ok tt) (λ t. t) (λ t. t) (λ t. t) test_hash 50 60 (codes "raw")
      (codes "again") first_setup first_setup empty after_setup.0 after_setup.1 joined.1 tt tt refl
      refl refl
      (and_then after_setup.1 joined.1 joined.1
        (creates (λ t. t) colleague after_setup.0.1 after_setup.1 joined.0 joined.1 refl)
        (no_more joined.1))

abbrev launched : LaunchResponse × Db
launched =
    value_of (record { launch_url = ""; rustdesk_id = "" }, empty)
      (launch_device_remote 50 3 2 boss office_db)

launch_is_audited_example :
    (is_in "remote:launch" (role_permissions "owner") ≡ true)
    × (launchable (link_of 1 3 office_db) ≡ some launched.0.rustdesk_id)
    × ((device : Device) × (audit : RemoteSessionAudit) × (get 3 office_db.devices ≡ some device)
        × (device.organization_id ≡ 1)
        × (launched.1.remote_audits ≡ [] ++ audit ∷ [])
        × (audit.actor_user_id ≡ some 2)
        × (audit.launch_url ≡ launched.0.launch_url))
unfolding launch_device_remote cyclope_central.Auth.Roles.require_permission is_in
    cyclope_central.Jobs.Api.owned_device get link_of cyclope_central.Session.scalar
launch_is_audited_example = launch_is_audited 50 3 2 boss office_db launched.0 launched.1 refl

-- a decoder that knows one token
abbrev claims : Claims
claims = record {
  sub = some (shown 2);
  org = shown 1;
  role = "owner";
  kind = some "access";
  exp = 900000000;
  iat = 0;
  iss = "i";
  aud = "a";
}

abbrev opened : ℕ → Text → Option Claims
opened t token = if ltb t claims.exp then some claims else none

opened-IsSignedBy : IsSignedBy signed opened claims
opened-IsSignedBy = record { valid = λ t h. ground arith; expired = λ t h. ground arith }

abbrev read_back : Text → Option ℕ
read_back [] = none
read_back (n ∷ t) = some n

token_authenticates_example :
    (require_authenticated_user read_back opened 60
        (some record {
          scheme = codes "Bearer";
          credentials = create_access_token shown signed "i" "a" 0 2 boss;
        })
        office_db
      ≡ ok (2, boss))
    × (require_authenticated_user read_back opened 900000001
          (some record {
            scheme = codes "Bearer";
            credentials = create_access_token shown signed "i" "a" 0 2 boss;
          })
          office_db
        ≡ err (unauthorized "Invalid token"))
unfolding cyclope_central.Auth.Access.access_claims get
token_authenticates_example =
    token_authenticates shown read_back signed opened "i" "a" 0 60 900000001 2 boss office_db
      (λ k. refl) opened-IsSignedBy (omega arith) (omega arith) refl refl

abbrev staff : User
staff = record boss { role = "technician" }

abbrev staffed_db : Db
staffed_db = record office_db { users = saved 2 staff }

abbrev disabling : UserResponse × Db
disabling = value_of (user_response (0, boss), empty) (disable_user 2 boss staffed_db)

disabled_user_is_refused_example :
    (is_in "users:manage" (role_permissions "owner") ≡ true)
    × ((user : User) × (get 2 staffed_db.users ≡ some user) × (user.organization_id ≡ 1))
    × (is_ok (user_of_claims read_back opened claims disabling.1) ≡ false)
unfolding cyclope_central.Auth.Access.subject disable_user
    cyclope_central.Auth.Roles.require_permission is_in cyclope_central.Users.require_same_org_user
    get
disabled_user_is_refused_example =
    disabled_user_is_refused read_back opened claims 2 boss staffed_db disabling.0 disabling.1 refl
      refl
