-- ===== src/Session/Lookup.antt =====
-- What queries and `db.get` find after an object was added or assigned to, and flushed.
use cyclope_central.Base.{
  ℕ, ◌≡◌, refl, ◌∙◌, Bool, true, none, some, [], ◌∷◌, Bool-cases, inl, inr, ◌==◌, ==_iff, ==_refl,
}
use cyclope_central.Session.{Table, get, peek, scalar, write, add, flush, IsClean}
use cyclope_central.Session.Laws.{get-write, get-flush}

module _ {ℓ} {A : Type ℓ} (p : ℕ → A → Bool) (k : ℕ) (a : A) where
  -- the new object, where the query found none
  pub scalar-flush-add :
      (t : Table A)
      → IsClean t
      → scalar p t ≡ none
      → p k a ≡ true
      → scalar p (flush (add k a t)) ≡ some (k, a)
  unfolding scalar add flush
  scalar-flush-add [] c n h = rw h refl
  scalar-flush-add (r ∷ t) c n h = elim (Bool-cases (p r.key r.live)) [
    | inl b ↦ cc (rw (c.0, b) at n)
    | inr b ↦ rw b (scalar-flush-add t c.1 (rw (c.0, b) at n) h)
  ]

-- What a query finds meets its condition.
pub scalar_sound {ℓ} :
    {A : Type ℓ} (p : ℕ → A → Bool) (k : ℕ) (a : A) (t : Table A)
    → IsClean t
    → scalar p t ≡ some (k, a)
    → p k a ≡ true
unfolding scalar
scalar_sound p k a [] c s = cc
scalar_sound p k a (r ∷ t) c s = elim (Bool-cases (p r.key r.live)) [
  | inl b ↦
      (let q : r.key ≡ k = cc (rw (c.0, b) at s) in
        let l : r.live ≡ a = cc (rw (c.0, b) at s) in rw (← q, ← l) b)
  | inr b ↦ scalar_sound p k a t c.1 (rw (c.0, b) at s)
]

-- An object that a query finds is found again after an assignment, where it still meets the condition.
pub scalar-flush-write {ℓ} :
    {A : Type ℓ} (p : ℕ → A → Bool) (k : ℕ) (old a : A) (t : Table A)
    → IsClean t
    → scalar p t ≡ some (k, old)
    → p k a ≡ true
    → scalar p (flush (write k a t)) ≡ some (k, a)
unfolding scalar write flush
scalar-flush-write p k old a [] c s h = cc
scalar-flush-write p k old a (r ∷ t) c s h = elim (Bool-cases (r.key == k)) [
  | inl e ↦ (let q : r.key ≡ k = (==_iff r.key k).0 e in rw (e, q, h) refl)
  | inr e ↦ elim (Bool-cases (p r.key r.live)) [
    | inl b ↦
        (let q : r.key ≡ k = cc (rw (c.0, b) at s) in
          let d : (r.key == k) ≡ true = (==_iff r.key k).1 q in cc)
    | inr b ↦ rw (e, b) (scalar-flush-write p k old a t c.1 (rw (c.0, b) at s) h)
  ]
]

-- The new object has its key, where no other has it.
pub get-flush-add {ℓ} :
    {A : Type ℓ} (k : ℕ) (a : A) (t : Table A)
    → IsClean t
    → get k t ≡ none
    → get k (flush (add k a t)) ≡ some a
unfolding get add flush
get-flush-add k a [] c n = rw ==_refl refl
get-flush-add k a (r ∷ t) c n = elim (Bool-cases (r.key == k)) [
  | inl b ↦ cc (rw (c.0, b) at n)
  | inr b ↦ rw b (get-flush-add k a t c.1 (rw (c.0, b) at n))
]

-- An object that is there has what it was assigned.
pub get-flush-write {ℓ} :
    {A : Type ℓ} (k : ℕ) (a b : A) (t : Table A)
    → get k t ≡ some a
    → get k (flush (write k b t)) ≡ some b
get-flush-write k a b t h = get-flush k b (write k b t) (get-write k k b t ∙ rw (==_refl, h) refl)

-- Where nothing is pending, the database holds the object as the session has it.
pub get-peek {ℓ} :
    {A : Type ℓ} (k : ℕ) (a : A) (t : Table A) → IsClean t → get k t ≡ some a → peek k t ≡ some a
unfolding get peek
get-peek k a [] c h = cc
get-peek k a (r ∷ t) c h = elim (Bool-cases (r.key == k)) [
  | inl e ↦ (let q : r.live ≡ a = cc (rw (e, c.0) at h) in rw (e, c.0, q) refl)
  | inr e ↦ rw e (get-peek k a t c.1 (rw e at h))
]
