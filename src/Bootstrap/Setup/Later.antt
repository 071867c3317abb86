-- ===== src/Bootstrap/Setup/Later.antt =====
-- The requests after a setup that leave its owner an active owner (backend/app/api/users.py), as steps of
-- the database.
use cyclope_central.Base.{ℕ, ◌≡◌, refl, true, false, Option, none, ◌==◌}
use cyclope_central.Base.Json.{Text}
use cyclope_central.Http.{ok}
use cyclope_central.Models.Tenant.{User}
use cyclope_central.Database.{Db}
use cyclope_central.Auth.Api.{UserResponse}
use cyclope_central.Users.{
  UserCreateRequest, UserPatchRequest, create_user, patch_user, disable_user, enable_user,
}
use cyclope_central.Bootstrap.Setup.Closed.{
  IsSetUp, create_user-IsSetUp, patched-IsActiveOwner, patch_user-IsSetUp, set_active-IsSetUp,
}

-- A request that was answered and that leaves the owner an active owner: users are created and enabled,
-- email and password of any user are patched, and the other users are patched and disabled.
pub data Step (lower : Text → Text) (owner_id : ℕ) : Db → Db → Type 0 where
  creates :
      (hash_pw : Text → Text) (payload : UserCreateRequest) (current : User) (db : Db)
      (response : UserResponse) (db' : Db)
      → create_user lower hash_pw payload current db ≡ ok (response, db')
      → Step lower owner_id db db'
  renames :
      (hash_pw : Text → Text) (user_id : ℕ) (email password : Option Text) (current : User)
      (db : Db) (response : UserResponse) (db' : Db)
      → patch_user lower hash_pw user_id
          (record { email = email; password = password; role = none })
          current
          db
        ≡ ok (response, db')
      → Step lower owner_id db db'
  patches_other :
      (hash_pw : Text → Text) (user_id : ℕ) (payload : UserPatchRequest) (current : User) (db : Db)
      (response : UserResponse) (db' : Db)
      → (user_id == owner_id) ≡ false
      → patch_user lower hash_pw user_id payload current db ≡ ok (response, db')
      → Step lower owner_id db db'
  enables :
      (user_id : ℕ) (current : User) (db : Db) (response : UserResponse) (db' : Db)
      → enable_user user_id current db ≡ ok (response, db')
      → Step lower owner_id db db'
  disables_other :
      (user_id : ℕ) (current : User) (db : Db) (response : UserResponse) (db' : Db)
      → (user_id == owner_id) ≡ false
      → disable_user user_id current db ≡ ok (response, db')
      → Step lower owner_id db db'

pub data Steps (lower : Text → Text) (owner_id : ℕ) : Db → Db → Type 0 where
  no_more : (db : Db) → Steps lower owner_id db db
  and_then :
      (db db' db'' : Db)
      → Step lower owner_id db db'
      → Steps lower owner_id db' db''
      → Steps lower owner_id db db''

module _ (lower : Text → Text) (owner_id : ℕ) where
  Step-IsSetUp :
      (db db' : Db) → Step lower owner_id db db' → IsSetUp owner_id db → IsSetUp owner_id db'
  unfolding disable_user enable_user
  Step-IsSetUp db db' (creates hash_pw payload current d response d' h) s =
      create_user-IsSetUp lower hash_pw owner_id payload current d response d' h s
  Step-IsSetUp db db' (renames hash_pw user_id email password current d response d' h) s =
      patch_user-IsSetUp lower hash_pw owner_id user_id
        (record { email = email; password = password; role = none }) current d response d'
        (λ user e a. patched-IsActiveOwner lower hash_pw email password user a) h s
  Step-IsSetUp db db' (patches_other hash_pw user_id payload current d response d' n h) s =
      patch_user-IsSetUp lower hash_pw owner_id user_id payload current d response d'
        (λ user e a. absurd (cc (rw e at n))) h s
  Step-IsSetUp db db' (enables user_id current d response d' h) s =
      set_active-IsSetUp true owner_id user_id current d response d' (λ e. refl) h s
  Step-IsSetUp db db' (disables_other user_id current d response d' n h) s =
      set_active-IsSetUp false owner_id user_id current d response d' (λ e. cc (rw e at n)) h s

  pub Steps-IsSetUp :
      (db db' : Db) → Steps lower owner_id db db' → IsSetUp owner_id db → IsSetUp owner_id db'
  Steps-IsSetUp db db' (no_more d) s = s
  Steps-IsSetUp db db' (and_then d d' d'' step rest) s =
      Steps-IsSetUp d' d'' rest (Step-IsSetUp d d' step s)
