-- ===== src/Session/Rows.antt =====
-- Predicates on all the objects of a table, and what keeps them.
use cyclope_central.Base.{
  ℕ, ◌≡◌, Bool, Option, none, some, [], ◌∷◌, arith, ◌==◌, All, Bool-cases, inl, inr,
}
use cyclope_central.Session.{Table, get, select, write, add, flush, picks}

module _ {ℓ κ} {A : Type ℓ} (P : A → Type κ) where
  -- Every object of the table has the property now.
  abbrev pub AllRows : Table A → Type κ
  AllRows t = All (λ r. P r.live) t

  pub AllRows-write : (k : ℕ) (a : A) (t : Table A) → P a → AllRows t → AllRows (write k a t)
  unfolding write
  AllRows-write k a [] p h = tt
  AllRows-write k a (r ∷ t) p h = elim (Bool-cases (r.key == k)) [
    | inl e ↦ (rw e p, AllRows-write k a t p h.1)
    | inr e ↦ (rw e (h.0), AllRows-write k a t p h.1)
  ]

  pub AllRows-flush : (t : Table A) → AllRows t → AllRows (flush t)
  unfolding flush
  AllRows-flush [] h = tt
  AllRows-flush (r ∷ t) h = (h.0, AllRows-flush t h.1)

  pub AllRows-add : (k : ℕ) (a : A) (t : Table A) → P a → AllRows t → AllRows (add k a t)
  unfolding add
  AllRows-add k a [] p h = (p, tt)
  AllRows-add k a (r ∷ t) p h = (h.0, AllRows-add k a t p h.1)

  pub AllRows-get : (k : ℕ) (a : A) (t : Table A) → AllRows t → get k t ≡ some a → P a
  unfolding get
  AllRows-get k a [] h e = cc
  AllRows-get k a (r ∷ t) h e = elim (Bool-cases (r.key == k)) [
    | inr d ↦ AllRows-get k a t h.1 (rw d at e)
    | inl d ↦ found r.stored (rw d at e)
  ]
    where
      found :
          (o : Option A)
          → (elim o as (λ o'. Option A) [ none ↦ none | some s ↦ some r.live ]) ≡ some a
          → P a
      found none g = cc
      found (some s) g = (let q : r.live ≡ a = ground arith in rw (← q) (h.0))

  pub AllRows-select : (p : ℕ → A → Bool) (t : Table A) → AllRows t → All (λ e. P e.1) (select p t)
  unfolding select
  AllRows-select p [] h = tt
  AllRows-select p (r ∷ t) h = elim (Bool-cases (picks p r)) [
    | inl e ↦ rw e (h.0, AllRows-select p t h.1)
    | inr e ↦ rw e (AllRows-select p t h.1)
  ]
