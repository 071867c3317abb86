-- ===== src/Examples/Users.antt =====
-- The theorems on users at concrete inputs.
use cyclope_central.Base.{
  ℕ, ◌≡◌, refl, is_in, Option, none, some, List, [], ◌∷◌, arith, Bool-cases, inl, inr, ◌==◌, ==_iff,
  sym, ◌∙◌, ltb, if◌then◌else◌,
}
use cyclope_central.Base.Json.{Text, codes, text_eq}
use cyclope_central.Http.{ok}
use cyclope_central.Session.{get}
use cyclope_central.Models.Tenant.{User}
use cyclope_central.Database.{Db}
use cyclope_central.Auth.Passwords.{hash_password}
use cyclope_central.Auth.Access.{Claims, access_claims, require_authenticated_user}
use cyclope_central.Auth.Access.RoundTrip.{IsSignedBy}
use cyclope_central.Auth.Api.{UserResponse, AuthResponse, user_response, login}
use cyclope_central.Users.{UserCreateRequest, create_user}
use cyclope_central.Users.Emails.{IsUnambiguous}
use cyclope_central.Users.Emails.Reachable.{creates, no_more, and_then, emails_stay_unique}
use cyclope_central.Users.SignIn.{newcomer, created_user_logs_in}
use cyclope_central.Examples.{value_of, test_hash, test_parse, boss, office, office_db}

abbrev stretched : Text → List ℕ → ℕ → List ℕ
stretched password salt rounds = salt

abbrev same_text : Text → Text
same_text t = t

abbrev shown : ℕ → Text
shown n = n ∷ []

abbrev read_back : Text → Option ℕ
read_back [] = none
read_back (n ∷ t) = some n

abbrev signed : Claims → Text
signed c = []

abbrev joiner : UserCreateRequest
joiner = record {
  email = codes "ada@office.example";
  password = codes "correct horse";
  role = "technician";
}

abbrev ada : User
ada = newcomer shown signed "i" "a" test_hash stretched test_parse same_text (1 ∷ 2 ∷ []) 1 joiner

-- a decoder that knows one token
abbrev ada_claims : Claims
ada_claims = access_claims shown signed "i" "a" 0 20 ada

abbrev opened : ℕ → Text → Option Claims
opened t token = if ltb t ada_claims.exp then some ada_claims else none

opened-IsSignedBy : IsSignedBy signed opened ada_claims
unfolding access_claims
opened-IsSignedBy = record { valid = λ t h. ground arith; expired = λ t h. ground arith }

abbrev joining : UserResponse × Db
joining =
    value_of (user_response (0, ada), office_db)
      (create_user same_text (λ password. hash_password stretched test_parse password (1 ∷ 2 ∷ []))
        joiner boss office_db)

created_user_logs_in_example :
    (answer : AuthResponse) × (db'' : Db) × (login shown signed "i" "a" test_hash stretched
        test_parse same_text 0
        (codes "fresh")
        joiner.email
        joiner.password
        joining.1
      ≡ (ok answer, db''))
    × (answer.user ≡ joining.0)
    × (require_authenticated_user read_back opened 60
          (some record { scheme = codes "Bearer"; credentials = answer.access_token })
          db''
        ≡ ok (joining.0.id, ada))
unfolding create_user cyclope_central.Auth.Roles.require_permission is_in get
    cyclope_central.Session.scalar text_eq
created_user_logs_in_example =
    created_user_logs_in shown signed "i" "a" test_hash stretched test_parse same_text read_back
      opened (1 ∷ 2 ∷ []) joiner boss office office_db joining.0 joining.1 0 60 (codes "fresh")
      joiner.email (omega arith, (omega arith, tt)) refl (λ k. refl) opened-IsSignedBy (omega arith)
      refl (refl, tt) refl refl refl

only_boss : (j : ℕ) (a : User) → get j office_db.users ≡ some a → 2 ≡ j
unfolding get
only_boss j a h = elim (Bool-cases (2 == j)) [ inl e ↦ (==_iff 2 j).0 e | inr e ↦ cc (rw e at h) ]

office_db-IsUnambiguous : IsUnambiguous office_db
unfolding get
office_db-IsUnambiguous = record {
  clean = (refl, tt);
  emails = λ j k a b g h e. sym (only_boss j a g) ∙ only_boss k b h;
}

emails_stay_unique_example : IsUnambiguous joining.1
unfolding create_user cyclope_central.Auth.Roles.require_permission is_in get
    cyclope_central.Session.scalar text_eq
emails_stay_unique_example =
    emails_stay_unique same_text office_db joining.1
      (and_then office_db joining.1 joining.1
        (creates (λ password. hash_password stretched test_parse password (1 ∷ 2 ∷ [])) joiner boss
          office_db joining.0 joining.1 refl)
        (no_more joining.1))
      office_db-IsUnambiguous
