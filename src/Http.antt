-- ===== src/Http.antt =====
-- What a request handler may raise: an `HTTPException` with its status code and detail, and the
-- `ValueError`s of the core functions that a handler turns into one. A handler that raises before
-- `db.commit()` leaves nothing behind, since `get_db` (db/session.py) closes the session: so an error
-- carries no state.
use cyclope_central.Base.{ℕ, String, ◌≡◌, ◌⊎◌, inl, inr, refl, Bool, true, false, if◌then◌else◌}

pub data Error : Type 0 where
  http : ℕ → String → Error
  value_error : String → Error

abbrev pub bad_request : String → Error
bad_request detail = http 400 detail

abbrev pub unauthorized : String → Error
unauthorized detail = http 401 detail

abbrev pub forbidden : String → Error
forbidden detail = http 403 detail

abbrev pub not_found : String → Error
not_found detail = http 404 detail

abbrev pub conflict : String → Error
conflict detail = http 409 detail

-- what a request gives, or what it raised
pub data Result {ℓ} (Response : Type ℓ) : Type ℓ where
  err : Error → Result Response
  ok : Response → Result Response

-- no exception was raised
abbrev pub is_ok {ℓ} : {Response : Type ℓ} → Result Response → Bool
is_ok (err raised) = false
is_ok (ok response) = true

infixl 5 ◌>>=◌ ◌>>◌
abbrev pub ◌>>=◌ {ℓ κ} :
    {First : Type ℓ} {Second : Type κ} → Result First → (First → Result Second) → Result Second
err raised >>= next = err raised
ok response >>= next = next response

-- `if bad: raise error`
abbrev pub raise_if : Bool → Error → Result (Unit {0})
raise_if bad error = if bad then err error else ok tt

abbrev pub ◌>>◌ {κ} : {Second : Type κ} → Result (Unit {0}) → Result Second → Result Second
checked >> next = checked >>= λ u. next

pub >>=-eq-ok {ℓ κ} :
    {First : Type ℓ} {Second : Type κ} (m : Result First) (next : First → Result Second)
    {b : Second}
    → (m >>= next) ≡ ok b
    → (response : First) × (m ≡ ok response) × (next response ≡ ok b)
>>=-eq-ok (err raised) next e = cc
>>=-eq-ok (ok response) next e = (response, refl, e)

pub raise_if-ok : (b : Bool) (e : Error) (u : Unit {0}) → raise_if b e ≡ ok u → b ≡ false
raise_if-ok true e u h = cc
raise_if-ok false e u h = refl

pub ok-injective {ℓ} :
    {Response : Type ℓ} {a b : Response} → Path (Result Response) (ok a) (ok b) → a ≡ b
ok-injective e = cc

-- the session that a request which answers leaves behind
pub state-ok {ℓ κ} :
    {Response : Type ℓ} {State : Type κ} {a b : Response} {s t : State}
    → Path (Result (Response × State)) (ok (a, s)) (ok (b, t))
    → s ≡ t
state-ok e = cc

pub Result-cases {ℓ} :
    {Response : Type ℓ} (r : Result Response)
    → ((response : Response) × (r ≡ ok response)) ⊎ ((raised : Error) × (r ≡ err raised))
Result-cases (err raised) = inr (raised, refl)
Result-cases (ok response) = inl (response, refl)
