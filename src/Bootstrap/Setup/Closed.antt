-- ===== src/Bootstrap/Setup/Closed.antt =====
-- When no setup is required: an organization, and an active owner, and the requests of
-- backend/app/api/users.py that leave the two.
use cyclope_central.Base.{
  ℕ, ◌≡◌, refl, ◌∙◌, Bool, true, false, not, Option, none, some, [], ◌∷◌, ltb, length, ◌==◌, ==_iff,
  Bool-cases, inl, inr, arith,
}
use mathlib.Core.Path.{subst}
use cyclope_central.Base.Json.{Text}
use cyclope_central.Http.{ok, raise_if, bad_request, state-ok, >>=-eq-ok}
use cyclope_central.Session.{Table, get, select, write, IsClean}
use cyclope_central.Session.Laws.{get-write, get-flush, flush-IsClean}
use cyclope_central.Session.Lookup.{get-flush-write}
use cyclope_central.Session.References.{get-add}
use cyclope_central.Models.Tenant.{Organization, User}
use cyclope_central.Database
use cyclope_central.Database.{Db}
use cyclope_central.Auth.Api.{UserResponse}
use cyclope_central.Auth.Roles.{require_permission}
use cyclope_central.Users.{
  UserCreateRequest, UserPatchRequest, created_user, insert_user, create_user, write_user,
  role_is_valid, patched_role, patched_email, patched_password, patch_user, set_active,
  require_same_org_user,
}
use cyclope_central.Users.Created.{create_user-is_new}
use cyclope_central.Users.Disabled.{require_same_org_user_sound}
use cyclope_central.Bootstrap.Setup.{is_owner, bootstrap_status, setup_required}

abbrev IsActiveOwner : User → Type 0
IsActiveOwner user = (user.role ≡ "owner") × (user.is_active ≡ true)

-- There is an organization, and this user is an active owner; nothing is pending on either table.
pub record IsSetUp (owner_id : ℕ) (db : Db) : Type 0 where
  pub clean_users : IsClean db.users
  pub clean_organizations : IsClean db.organizations
  pub organization : (k : ℕ) × (o : Organization) × (get k db.organizations ≡ some o)
  pub owner : (user : User) × (get owner_id db.users ≡ some user) × IsActiveOwner user

-- A query finds an object that is there and meets its condition.
get-select {ℓ} :
    {A : Type ℓ} (p : ℕ → A → Bool) (k : ℕ) (a : A) (t : Table A)
    → IsClean t
    → get k t ≡ some a
    → p k a ≡ true
    → ltb 0 (length (select p t)) ≡ true
unfolding get select
get-select p k a [] c h q = cc
get-select p k a (r ∷ t) c h q = elim (Bool-cases (r.key == k)) [
  | inl e ↦
      (let i : r.key ≡ k = (==_iff r.key k).0 e in
        let l : r.live ≡ a = cc (rw (e, c.0) at h) in rw (c.0, i, l, q) (ground arith))
  | inr e ↦ elim (Bool-cases (p r.key r.live)) [
    | inl b ↦ rw (c.0, b) (ground arith)
    | inr b ↦ rw (c.0, b) (get-select p k a t c.1 (rw e at h) q)
  ]
]

pub setup_required-IsSetUp :
    (owner_id : ℕ) (db : Db) → IsSetUp owner_id db → setup_required db ≡ false
unfolding setup_required bootstrap_status is_owner
setup_required-IsSetUp owner_id db s =
    (let (k, o, h) = s.organization in
      let (user, g, a) = s.owner in
      rw
        (
          get-select (λ k (o : Organization). true) k o db.organizations s.clean_organizations h
              refl,
          get-select is_owner owner_id user db.users s.clean_users g
              (unfold is_owner in rw (a.0, a.1) refl),
        )
        refl)

module _ (lower : Text → Text) (hash_pw : Text → Text) where
  insert_user-IsSetUp :
      (owner_id : ℕ) (user : User) (db : Db)
      → IsSetUp owner_id db
      → IsSetUp owner_id (insert_user lower hash_pw user db)
  unfolding insert_user Database.flush
  insert_user-IsSetUp owner_id user db s =
      (let (k, o, h) = s.organization in
        let (owner, g, a) = s.owner in
        record {
          clean_users = flush-IsClean _;
          clean_organizations = flush-IsClean db.organizations;
          organization = (k, o, get-flush k o db.organizations h);
          owner = (
            owner,
            get-flush owner_id owner _ (get-add owner_id db.next_id owner user db.users g),
            a,
          );
        })

  pub create_user-IsSetUp :
      (owner_id : ℕ) (payload : UserCreateRequest) (current : User) (db : Db)
      (response : UserResponse) (db' : Db)
      → create_user lower hash_pw payload current db ≡ ok (response, db')
      → IsSetUp owner_id db
      → IsSetUp owner_id db'
  create_user-IsSetUp owner_id payload current db response db' h s =
      subst (λ (r : UserResponse × Db). IsSetUp owner_id r.1)
        (create_user-is_new lower hash_pw payload current db response db' h).1
        (insert_user-IsSetUp owner_id (created_user lower hash_pw current.organization_id payload)
          db s)

-- an assignment to a user that leaves an active owner one, if it is the owner's
write_user-IsSetUp :
    (owner_id user_id : ℕ) (user changed : User) (db : Db)
    → get user_id db.users ≡ some user
    → ((user_id == owner_id) ≡ true → IsActiveOwner user → IsActiveOwner changed)
    → IsSetUp owner_id db
    → IsSetUp owner_id (write_user user_id changed db)
unfolding write_user Database.flush
write_user-IsSetUp owner_id user_id user changed db h keeps s =
    (let (k, o, i) = s.organization in
      let (owner, g, a) = s.owner in
      record {
        clean_users = flush-IsClean (write user_id changed db.users);
        clean_organizations = flush-IsClean db.organizations;
        organization = (k, o, get-flush k o db.organizations i);
        owner = elim (Bool-cases (user_id == owner_id)) [
          | inl e ↦
              (let q : user_id ≡ owner_id = (==_iff user_id owner_id).0 e in
                let same : owner ≡ user = cc in
                (
                  changed,
                  rw (← q) (get-flush-write user_id user changed db.users h),
                  keeps e (subst IsActiveOwner same a),
                ))
          | inr e ↦ (
            owner,
            get-flush owner_id owner _ (get-write owner_id user_id changed db.users ∙ rw e g),
            a,
          )
        ];
      })

module _ (lower : Text → Text) (hash_pw : Text → Text) where
  -- the attributes after a patch
  abbrev pub patched_user : UserPatchRequest → User → User
  patched_user payload user =
      patched_password lower hash_pw payload.password
        (patched_email lower hash_pw payload.email (patched_role lower hash_pw payload.role user))

  pub patched-IsActiveOwner :
      (email password : Option Text) (user : User)
      → IsActiveOwner user
      → IsActiveOwner
          (patched_user (record { email = email; password = password; role = none }) user)
  unfolding patched_password patched_email patched_role
  patched-IsActiveOwner none none user a = a
  patched-IsActiveOwner none (some password) user a = a
  patched-IsActiveOwner (some email) none user a = a
  patched-IsActiveOwner (some email) (some password) user a = a

  pub patch_user-IsSetUp :
      (owner_id user_id : ℕ) (payload : UserPatchRequest) (current : User) (db : Db)
      (response : UserResponse) (db' : Db)
      → ((user : User)
          → (user_id == owner_id) ≡ true
          → IsActiveOwner user
          → IsActiveOwner (patched_user payload user))
      → patch_user lower hash_pw user_id payload current db ≡ ok (response, db')
      → IsSetUp owner_id db
      → IsSetUp owner_id db'
  unfolding patch_user
  patch_user-IsSetUp owner_id user_id payload current db response db' keeps h s =
      (let (u, q, g) = >>=-eq-ok (require_permission "users:manage" current) _ h in
        let (user, o, f) =
          >>=-eq-ok (require_same_org_user user_id current.organization_id db) _ g in
        let (v, r, e) =
          >>=-eq-ok (raise_if (not (role_is_valid payload.role)) (bad_request "Invalid role")) _
            f in
        let (k, t) = require_same_org_user_sound user_id current.organization_id db user o in
        subst (IsSetUp owner_id) (state-ok e) (
          write_user-IsSetUp owner_id user_id user (patched_user payload user) db k (keeps user) s))

pub set_active-IsSetUp :
    (active : Bool) (owner_id user_id : ℕ) (current : User) (db : Db) (response : UserResponse)
    (db' : Db)
    → ((user_id == owner_id) ≡ true → active ≡ true)
    → set_active active user_id current db ≡ ok (response, db')
    → IsSetUp owner_id db
    → IsSetUp owner_id db'
unfolding set_active
set_active-IsSetUp active owner_id user_id current db response db' keeps h s =
    (let (u, q, g) = >>=-eq-ok (require_permission "users:manage" current) _ h in
      let (user, o, f) = >>=-eq-ok (require_same_org_user user_id current.organization_id db) _ g in
      let (k, t) = require_same_org_user_sound user_id current.organization_id db user o in
      subst (IsSetUp owner_id) (state-ok f) (
        write_user-IsSetUp owner_id user_id user (record user { is_active = active }) db k
          (λ e a. (a.0, keeps e)) s))
