-- ===== src/Session/Distinct.antt =====
-- What two objects of a table never share, and what keeps that.
use cyclope_central.Base.{
  ℕ, ◌≡◌, Bool, false, none, some, [], ◌∷◌, ◌==◌, ◌⊎◌, inl, inr, Bool-cases, arith, sym, ◌∙◌,
}
use cyclope_central.Session.{Table, get, scalar, write, add, flush, IsClean}

module _ {ℓ} {A : Type ℓ} where
  -- An object after one more was added and flushed is the new one or one from before.
  get-flush-add-cases :
      (j k : ℕ) (a b : A) (t : Table A)
      → IsClean t
      → get j (flush (add k a t)) ≡ some b
      → (get j t ≡ some b) ⊎ ((j ≡ k) × (a ≡ b))
  unfolding get add flush
  get-flush-add-cases j k a b [] c h = elim (Bool-cases (k == j)) [
    | inl e ↦ inr (ground arith, cc (rw e at h))
    | inr e ↦ cc (rw e at h)
  ]
  get-flush-add-cases j k a b (r ∷ t) c h = elim (Bool-cases (r.key == j)) [
    | inl e ↦ inl (rw (get, e, c.0) (rw e at h))
    | inr e ↦ rw e (get-flush-add-cases j k a b t c.1 (rw e at h))
  ]

  -- An object after one was assigned to and flushed is that one or one from before.
  get-flush-write-cases :
      (j k : ℕ) (a b : A) (t : Table A)
      → IsClean t
      → get j (flush (write k a t)) ≡ some b
      → (get j t ≡ some b) ⊎ ((j ≡ k) × (a ≡ b))
  unfolding get write flush
  get-flush-write-cases j k a b [] c h = cc
  get-flush-write-cases j k a b (r ∷ t) c h = elim (Bool-cases (r.key == j)) [
    | inl e ↦ elim (Bool-cases (r.key == k)) [
      | inl d ↦ inr (ground arith, cc (rw (d, e) at h))
      | inr d ↦ inl (rw (get, e, c.0) (rw (d, e) at h))
    ]
    | inr e ↦ elim (Bool-cases (r.key == k)) [
      | inl d ↦ rw e (get-flush-write-cases j k a b t c.1 (rw (d, e) at h))
      | inr d ↦ rw e (get-flush-write-cases j k a b t c.1 (rw (d, e) at h))
    ]
  ]

  -- What a query does not find, no object is.
  pub scalar-none :
      (p : ℕ → A → Bool) (k : ℕ) (a : A) (t : Table A)
      → IsClean t
      → scalar p t ≡ none
      → get k t ≡ some a
      → p k a ≡ false
  unfolding get scalar
  scalar-none p k a [] c n h = cc
  scalar-none p k a (r ∷ t) c n h = elim (Bool-cases (p r.key r.live)) [
    | inl b ↦ cc (rw (c.0, b) at n)
    | inr b ↦ elim (Bool-cases (r.key == k)) [
      | inl e ↦
          (let q : r.key ≡ k = ground arith in
            let s : r.live ≡ a = cc (rw (e, c.0) at h) in rw (← q, ← s) b)
      | inr e ↦ scalar-none p k a t c.1 (rw (c.0, b) at n) (rw e at h)
    ]
  ]

module _ {ℓ κ} {A : Type ℓ} {B : Type κ} (f : A → B) where
  -- Objects with the same value of the attribute have the same key.
  abbrev pub IsDistinct : Table A → Type (ℓ ⊔ κ)
  IsDistinct t = (j k : ℕ) (a b : A) → get j t ≡ some a → get k t ≡ some b → f a ≡ f b → j ≡ k

  extended-IsDistinct :
      (k : ℕ) (a : A) (t t' : Table A)
      → ((j : ℕ) (b : A) → get j t' ≡ some b → (get j t ≡ some b) ⊎ ((j ≡ k) × (a ≡ b)))
      → ((j : ℕ) (b : A) → get j t ≡ some b → f b ≡ f a → j ≡ k)
      → IsDistinct t
      → IsDistinct t'
  extended-IsDistinct k a t t' cases fresh d i j b c g h e = elim (cases i b g) [
    | inl p ↦ elim (cases j c h) [ inl q ↦ d i j b c p q e | inr (q, s) ↦ fresh i b p (cc) ∙ sym q ]
    | inr (p, r) ↦ elim (cases j c h) [
      | inl q ↦ p ∙ sym (fresh j c q (cc))
      | inr (q, s) ↦ p ∙ sym q
    ]
  ]

  pub flush-add-IsDistinct :
      (k : ℕ) (a : A) (t : Table A)
      → IsClean t
      → ((j : ℕ) (b : A) → get j t ≡ some b → f b ≡ f a → j ≡ k)
      → IsDistinct t
      → IsDistinct (flush (add k a t))
  flush-add-IsDistinct k a t c fresh d =
      extended-IsDistinct k a t (flush (add k a t)) (λ j b h. get-flush-add-cases j k a b t c h)
        fresh d

  pub flush-write-IsDistinct :
      (k : ℕ) (a : A) (t : Table A)
      → IsClean t
      → ((j : ℕ) (b : A) → get j t ≡ some b → f b ≡ f a → j ≡ k)
      → IsDistinct t
      → IsDistinct (flush (write k a t))
  flush-write-IsDistinct k a t c fresh d =
      extended-IsDistinct k a t (flush (write k a t)) (λ j b h. get-flush-write-cases j k a b t c h)
        fresh d
