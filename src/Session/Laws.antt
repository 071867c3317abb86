-- ===== src/Session/Laws.antt =====
-- Laws of the session's tables: what a write, a flush and an added object change for `get`, `peek`
-- and the queries.
use cyclope_central.Base.{
  ℕ, ◌≡◌, refl, Bool, true, none, some, [], ◌∷◌, arith, ◌==◌, if◌then◌else◌, is_some, All,
  Bool-cases, inl, inr,
}
use cyclope_central.Session.{Table, get, peek, select, scalar, write, flush, IsClean}

module _ {ℓ} {A : Type ℓ} where
  -- An assignment is seen through the object written, and through no other.
  pub get-write :
      (j k : ℕ) (a : A) (t : Table A)
      → get j (write k a t)
        ≡ (if k == j then (if is_some (get j t) then some a else none) else get j t)
  unfolding get write
  get-write j k a [] = ground arith
  get-write j k a (r ∷ t) = ground (arith, get-write j k a t)

  -- An assignment does not reach the database before a flush.
  pub peek-write : (j k : ℕ) (a : A) (t : Table A) → peek j (write k a t) ≡ peek j t
  unfolding peek write
  peek-write j k a [] = refl
  peek-write j k a (r ∷ t) = ground (arith, peek-write j k a t)

  -- A flush writes every object back.
  pub peek-flush : (j : ℕ) (t : Table A) → peek j (flush t) ≡ get j (flush t)
  unfolding peek get flush
  peek-flush j [] = refl
  peek-flush j (r ∷ t) = ground (arith, peek-flush j t)

  pub get-flush : (j : ℕ) (a : A) (t : Table A) → get j t ≡ some a → get j (flush t) ≡ some a
  unfolding get flush
  get-flush j a [] h = h
  get-flush j a (r ∷ t) h = ground (arith, get-flush j a t)

  pub flush-IsClean : (t : Table A) → IsClean (flush t)
  unfolding flush
  flush-IsClean [] = tt
  flush-IsClean (r ∷ t) = (refl, flush-IsClean t)

  pub flush-idem_of_IsClean : (t : Table A) → IsClean t → flush t ≡ t
  unfolding flush
  flush-idem_of_IsClean [] h = refl
  flush-idem_of_IsClean (r ∷ t) h = ground (arith, flush-idem_of_IsClean t h.1)

  -- On a clean table a query hands back objects that satisfy its condition now.
  pub All-select :
      (p : ℕ → A → Bool) (t : Table A) → IsClean t → All (λ e. p e.0 e.1 ≡ true) (select p t)
  unfolding select
  All-select p [] h = tt
  All-select p (r ∷ t) h = elim (Bool-cases (p r.key r.live)) [
    | inl e ↦ rw (h.0, e) (e, All-select p t h.1)
    | inr e ↦ rw (h.0, e) (All-select p t h.1)
  ]

  pub scalar-holds :
      (p : ℕ → A → Bool) (t : Table A) (k : ℕ) (a : A)
      → IsClean t
      → scalar p t ≡ some (k, a)
      → p k a ≡ true
  unfolding scalar
  scalar-holds p [] k a h e = absurd (ground arith)
  scalar-holds p (r ∷ t) k a h e = ground (arith, scalar-holds p t k a h.1)
