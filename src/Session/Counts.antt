-- ===== src/Session/Counts.antt =====
-- Laws of counts: disjoint conditions add up, a stricter condition counts no more, and a query on a clean
-- table hands back as many objects as are counted.
use cyclope_central.Base.{
  ℕ, ◌+◌, ◌≤◌, ◌≡◌, refl, Bool, false, not, ◌&&◌, ◌||◌, [], ◌∷◌, arith, length, none, if◌then◌else◌,
  Bool-cases, Option-cases, inl, inr,
}
use cyclope_central.Session.{Table, select, scalar, add, flush, picks, IsClean}
use cyclope_central.Session.Query.{count}

module _ {ℓ} {A : Type ℓ} where
  pub length-select : (p : ℕ → A → Bool) (t : Table A) → IsClean t → length (select p t) ≡ count p t
  unfolding select count
  length-select p [] h = refl
  length-select p (r ∷ t) h = ground (arith, length-select p t h.1)

  -- A condition that holds where exactly one of two others does counts what they count together.
  pub count-both :
      (p q s : ℕ → A → Bool) (t : Table A)
      → ((k : ℕ) (a : A) → (p k a && q k a) ≡ false)
      → ((k : ℕ) (a : A) → s k a ≡ (p k a || q k a))
      → count p t + count q t ≡ count s t
  unfolding count
  count-both p q s [] d e = refl
  count-both p q s (r ∷ t) d e = elim (Option-cases r.stored) [
    | inl z ↦ rw z (count-both p q s t d e)
    | inr (a, z) ↦ rw (z, e r.key a) (ground (arith, d r.key a, count-both p q s t d e))
  ]

  pub count_mono :
      (p q : ℕ → A → Bool) (t : Table A)
      → ((k : ℕ) (a : A) → (p k a && not (q k a)) ≡ false)
      → count p t ≤ count q t
  unfolding count
  count_mono p q [] d = omega arith
  count_mono p q (r ∷ t) d = elim (Option-cases r.stored) [
    | inl z ↦ rw z (count_mono p q t d)
    | inr (a, z) ↦ rw z (ground (arith, d r.key a, count_mono p q t d))
  ]

  pub count-flush : (p : ℕ → A → Bool) (t : Table A) → IsClean t → count p (flush t) ≡ count p t
  unfolding count flush
  count-flush p [] c = refl
  count-flush p (r ∷ t) c = rw (c.0) (ground (arith, count-flush p t c.1))

  -- One more object that was flushed counts where the condition holds of it.
  pub count-flush-add :
      (p : ℕ → A → Bool) (k : ℕ) (a : A) (t : Table A)
      → IsClean t
      → count p (flush (add k a t)) ≡ count p t + (if p k a then 1 else 0)
  unfolding count flush add
  count-flush-add p k a [] c = ground arith
  count-flush-add p k a (r ∷ t) c = rw (c.0) (ground (arith, count-flush-add p k a t c.1))

  pub count-none : (p : ℕ → A → Bool) (t : Table A) → scalar p t ≡ none → count p t ≡ 0
  unfolding count scalar
  count-none p [] h = refl
  count-none p (r ∷ t) h = elim (Bool-cases (picks p r)) [
    | inl b ↦ cc (rw b at h)
    | inr b ↦ rw b (count-none p t (rw b at h))
  ]
