-- ===== src/Session/Keys.antt =====
-- Primary keys: no two rows of a table share one, and what follows for queries and writes.
use cyclope_central.Base.{
  ℕ, ◌≡◌, refl, ap, Bool, false, some, [], ◌∷◌, arith, ◌==◌, All, Bool-cases, inl, inr,
}
use cyclope_central.Session.{Table, picks, scalar, write}

module _ {ℓ} {A : Type ℓ} where
  -- The key is that of none of the rows.
  abbrev pub IsAbsent : ℕ → Table A → Type 0
  IsAbsent k t = All (λ q. (k == q.key) ≡ false) t

  -- No two rows have one primary key.
  abbrev pub HasDistinctKeys : Table A → Type 0
  HasDistinctKeys [] = Unit
  HasDistinctKeys (r ∷ t) = IsAbsent r.key t × HasDistinctKeys t

  pub write-absent : (k : ℕ) (a : A) (t : Table A) → IsAbsent k t → write k a t ≡ t
  unfolding write
  write-absent k a [] h = refl
  write-absent k a (r ∷ t) h =
      (let e : (r.key == k) ≡ false = ground (arith, h.0) in
        rw e (ap (λ u. r ∷ u) (write-absent k a t h.1)))

  -- A query finds no key that is absent.
  pub scalar-present :
      (p : ℕ → A → Bool) (j k : ℕ) (a : A) (t : Table A)
      → IsAbsent j t
      → scalar p t ≡ some (k, a)
      → (j == k) ≡ false
  unfolding scalar
  scalar-present p j k a [] h e = cc
  scalar-present p j k a (r ∷ t) h e = elim (Bool-cases (picks p r)) [
    | inl b ↦ (let f : r.key ≡ k = ground (arith, rw b at e) in rw (← f) (h.0))
    | inr b ↦ scalar-present p j k a t h.1 (rw b at e)
  ]
