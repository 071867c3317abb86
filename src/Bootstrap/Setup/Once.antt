-- ===== src/Bootstrap/Setup/Once.antt =====
-- When `setup` of backend/app/api/bootstrap.py is refused once it was answered: as long as the owner that
-- it made stays an active owner.
use mathlib.Core.Path.{subst, sym}
use cyclope_central.Base.{ℕ, ◌+◌, ◌≡◌, refl, ap, false, not, none}
use cyclope_central.Base.Json.{Text}
use cyclope_central.Http.{Result, Error, ok, err, ok-injective, >>=-eq-ok, raise_if, conflict, http}
use cyclope_central.Session
use cyclope_central.Session.{get, IsClean}
use cyclope_central.Session.Laws.{get-flush, flush-IsClean, flush-idem_of_IsClean}
use cyclope_central.Session.Lookup.{get-flush-add}
use cyclope_central.Models.Tenant.{Organization, User}
use cyclope_central.Database
use cyclope_central.Database.{Db}
use cyclope_central.Auth.Access.{issue_refresh_token}
use cyclope_central.Bootstrap.Setup.{
  SetupRequest, setup_required, first_owner, insert_organization, insert_owner, create_first_owner,
  as_bad_request, setup,
}
use cyclope_central.Bootstrap.Setup.Closed.{IsSetUp, setup_required-IsSetUp}
use cyclope_central.Bootstrap.Setup.Later.{Steps, Steps-IsSetUp}

module _ (check : Text → Result (Unit {0})) (slugify lower hash_pw hash : Text → Text) where
  -- the session after the commit of a setup
  committed : ℕ → Text → SetupRequest → Db → Db
  committed now raw_token payload db =
      let org = insert_organization check slugify lower hash_pw hash payload db in
      let user = first_owner check slugify lower hash_pw hash db.next_id payload in
      Database.flush (
        issue_refresh_token hash now raw_token org.next_id user
          (insert_owner check slugify lower hash_pw hash user org))

  committed-IsSetUp :
      (now : ℕ) (raw_token : Text) (payload : SetupRequest) (db : Db)
      → IsClean db.users
      → IsClean db.organizations
      → get db.next_id db.organizations ≡ none
      → get (db.next_id + 1) db.users ≡ none
      → IsSetUp (db.next_id + 1) (committed now raw_token payload db)
  unfolding committed insert_organization insert_owner first_owner issue_refresh_token
      Database.flush
  committed-IsSetUp now raw_token payload db c d n m =
      (let organization : Organization = record {
        name = payload.organization_name;
        slug = slugify payload.organization_name;
      } in
        let user = first_owner check slugify lower hash_pw hash db.next_id payload in
        let unused =
          subst (λ t. get (db.next_id + 1) t ≡ none) (sym (flush-idem_of_IsClean db.users c)) m in
        record {
          clean_users = flush-IsClean _;
          clean_organizations = flush-IsClean _;
          organization = (
            db.next_id,
            organization,
            get-flush db.next_id organization _ (
                get-flush db.next_id organization _
                  (get-flush-add db.next_id organization db.organizations d n)),
          );
          owner = (
            user,
            get-flush (db.next_id + 1) user _ (
                get-flush-add (db.next_id + 1) user (Session.flush db.users)
                  (flush-IsClean db.users) unused),
            (refl, refl),
          );
        })

  create_first_owner-ok :
      (now : ℕ) (raw_token : Text) (payload : SetupRequest) (db : Db) (owner : ℕ × User) (db' : Db)
      → create_first_owner check slugify lower hash_pw hash now raw_token payload db
        ≡ ok (owner, db')
      → (db.next_id + 1 ≡ owner.0) × (committed now raw_token payload db ≡ Database.flush db')
  unfolding create_first_owner committed insert_organization Database.flush
  create_first_owner-ok now raw_token payload db owner db' h =
      (let (r, p, g) =
          >>=-eq-ok
            (raise_if (not (setup_required db)) (http 500 "Bootstrap setup has already completed"))
            _ h in
        let (c, q, f) = >>=-eq-ok (check payload.owner_password) _ g in
        let e = ok-injective f in
        (ap (λ (r : (ℕ × User) × Db). r.0.0) e, ap (λ (r : (ℕ × User) × Db). Database.flush r.1) e))

  as_bad_request-eq-ok {ℓ} :
      {A : Type ℓ} (r : Result A) (a : A)
      → as_bad_request check slugify lower hash_pw hash r ≡ ok a
      → r ≡ ok a
  unfolding as_bad_request
  as_bad_request-eq-ok (ok b) a h = h
  as_bad_request-eq-ok (err (Error.http code detail)) a h = cc
  as_bad_request-eq-ok (err (Error.value_error detail)) a h = cc

  -- A setup that was answered is the last while its owner stays an active owner. Whatever users are
  -- created and enabled afterwards, whichever emails and passwords are patched, and whatever becomes of
  -- the other users by patching and disabling them: on what these requests leave behind no setup is
  -- required, and one that is asked for is refused as a conflict. Before the setup nothing is pending on
  -- users and organizations, and the keys that it gives to its organization and its owner are new.
  pub setup_happens_once :
      (now later : ℕ) (raw_token raw_token' : Text) (payload payload' : SetupRequest) (db : Db)
      (owner : ℕ × User) (db' db'' : Db)
      → IsClean db.users
      → IsClean db.organizations
      → get db.next_id db.organizations ≡ none
      → get (db.next_id + 1) db.users ≡ none
      → setup check slugify lower hash_pw hash now raw_token payload db ≡ ok (owner, db')
      → Steps lower owner.0 db' db''
      → (setup_required db'' ≡ false)
        × (setup check slugify lower hash_pw hash later raw_token' payload' db''
            ≡ err (conflict "Bootstrap setup has already completed"))
  unfolding setup
  setup_happens_once now later raw_token raw_token' payload payload' db owner db' db'' c d n m h
        steps =
      (let (v, r, f) =
          >>=-eq-ok
            (raise_if (not (setup_required db)) (conflict "Bootstrap setup has already completed"))
            _ h in
        let first = create_first_owner check slugify lower hash_pw hash now raw_token payload db in
        let ((o, created), p, g) =
          >>=-eq-ok (as_bad_request check slugify lower hash_pw hash first) _ f in
        let (k, i) =
          create_first_owner-ok now raw_token payload db o created
            (as_bad_request-eq-ok first (o, created) p) in
        let j = ok-injective g in
        let s : IsSetUp owner.0 db' =
          subst (λ (r : (ℕ × User) × Db). IsSetUp r.0.0 r.1) j
            (subst (λ e. IsSetUp e (Database.flush created)) k
              (subst (IsSetUp (db.next_id + 1)) i
                (committed-IsSetUp now raw_token payload db c d n m))) in
        let e =
          setup_required-IsSetUp owner.0 db'' (Steps-IsSetUp lower owner.0 db' db'' steps s) in
        (e, rw (setup, e) refl))
