-- ===== src/Users/Emails/Reachable.antt =====
-- Requests that create and change users (backend/app/api/users.py) as steps of the database, and that
-- they keep the emails of users apart.
use cyclope_central.Base.{Option, none, String, ℕ, ◌≡◌, true, false}
use cyclope_central.Base.Json.{Text}
use cyclope_central.Http.{ok}
use cyclope_central.Models.Tenant.{User}
use cyclope_central.Database.{Db}
use cyclope_central.Auth.Api.{UserResponse}
use cyclope_central.Users.{UserCreateRequest, create_user, patch_user, disable_user, enable_user}
use cyclope_central.Users.Emails.{
  IsUnambiguous, create_user-IsUnambiguous, patch_user-IsUnambiguous, set_active-IsUnambiguous,
}

-- A request that was answered. A patch counts only where it sets no email: `patch_user` does not look
-- whether an email is taken.
pub data Step (lower : Text → Text) : Db → Db → Type 0 where
  creates :
      (hash_pw : Text → Text) (payload : UserCreateRequest) (current : User) (db : Db)
      (response : UserResponse) (db' : Db)
      → create_user lower hash_pw payload current db ≡ ok (response, db')
      → Step lower db db'
  patches :
      (hash_pw : Text → Text) (user_id : ℕ) (password : Option Text) (role : Option String)
      (current : User) (db : Db) (response : UserResponse) (db' : Db)
      → patch_user lower hash_pw user_id
          (record { email = none; password = password; role = role })
          current
          db
        ≡ ok (response, db')
      → Step lower db db'
  disables :
      (user_id : ℕ) (current : User) (db : Db) (response : UserResponse) (db' : Db)
      → disable_user user_id current db ≡ ok (response, db')
      → Step lower db db'
  enables :
      (user_id : ℕ) (current : User) (db : Db) (response : UserResponse) (db' : Db)
      → enable_user user_id current db ≡ ok (response, db')
      → Step lower db db'

pub data Steps (lower : Text → Text) : Db → Db → Type 0 where
  no_more : (db : Db) → Steps lower db db
  and_then : (db db' db'' : Db) → Step lower db db' → Steps lower db' db'' → Steps lower db db''

module _ (lower : Text → Text) where
  Step-IsUnambiguous : (db db' : Db) → Step lower db db' → IsUnambiguous db → IsUnambiguous db'
  unfolding disable_user enable_user
  Step-IsUnambiguous db db' (creates hash_pw payload current d response d' h) s =
      create_user-IsUnambiguous lower hash_pw payload current d response d' h s
  Step-IsUnambiguous db db' (patches hash_pw user_id password role current d response d' h) s =
      patch_user-IsUnambiguous lower hash_pw user_id password role current d response d' h s
  Step-IsUnambiguous db db' (disables user_id current d response d' h) s =
      set_active-IsUnambiguous false user_id current d response d' h s
  Step-IsUnambiguous db db' (enables user_id current d response d' h) s =
      set_active-IsUnambiguous true user_id current d response d' h s

  -- Creating, disabling and enabling users, and patching their password and role but not their email, in
  -- any order and by users of any organizations, keeps the emails of users apart, whatever `str.lower()`
  -- and the password hashes give: where no two users have one email and nothing is pending in the table of
  -- users, that is so after the requests that were answered. The first setup is not among the requests.
  pub emails_stay_unique : (db db' : Db) → Steps lower db db' → IsUnambiguous db → IsUnambiguous db'
  emails_stay_unique db db' (no_more d) s = s
  emails_stay_unique db db' (and_then d d' d'' step rest) s =
      emails_stay_unique d' d'' rest (Step-IsUnambiguous d d' step s)
