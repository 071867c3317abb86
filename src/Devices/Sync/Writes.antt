-- ===== src/Devices/Sync/Writes.antt =====
-- A series of writes, one for each entry of a list, to the rows that the list is about.
use cyclope_central.Base.{
  ℕ, ◌≡◌, refl, ◌∙◌, Bool, true, false, List, [], ◌∷◌, ◌==◌, if◌then◌else◌, All, Bool-cases, inl,
  inr,
}
use cyclope_central.Session.{Table, Row, write, flush, IsClean}
use cyclope_central.Session.Query.{count}
use cyclope_central.Devices.Sync.{has_key, AgreesWith, IsListedBy}

module _ {ℓ} {A : Type ℓ} (f : A → A) where
  -- `write` of the image of each entry's object
  abbrev pub writes : List (ℕ × A) → Table A → Table A
  writes [] t = t
  writes (e ∷ l) t = writes l (write e.0 (f e.1) t)

  -- what becomes of one row's object
  abbrev settle : ℕ → A → List (ℕ × A) → A
  settle k a [] = a
  settle k a (e ∷ l) = settle k (if k == e.0 then f e.1 else a) l

  writes-cons :
      (l : List (ℕ × A)) (r : Row A) (t : Table A)
      → writes l (r ∷ t) ≡ record r { live = settle r.key r.live l } ∷ writes l t
  unfolding write
  writes-cons [] r t = refl
  writes-cons (e ∷ l) r t = elim (Bool-cases (r.key == e.0)) [
    | inl b ↦ rw b (writes-cons l (record r { live = f e.1 }) (write e.0 (f e.1) t))
    | inr b ↦ rw b (writes-cons l r (write e.0 (f e.1) t))
  ]

  writes-nil : (l : List (ℕ × A)) → writes l [] ≡ []
  unfolding write
  writes-nil [] = refl
  writes-nil (e ∷ l) = writes-nil l

  settle-listed :
      (r : Row A) (a : A) (l : List (ℕ × A))
      → All (AgreesWith r) l
      → settle r.key a l ≡ (if has_key r.key l then f r.live else a)
  settle-listed r a [] h = refl
  settle-listed r a (e ∷ l) (inl d, h) = rw d (settle-listed r a l h)
  settle-listed r a (e ∷ l) (inr d, h) = elim (Bool-cases (r.key == e.0)) [
    | inr b ↦ rw b (settle-listed r a l h)
    | inl b ↦ rw (b, d) (settle-listed r (f r.live) l h ∙ both (has_key r.key l))
  ]
    where
      both : (b : Bool) → (if b then f r.live else f r.live) ≡ f r.live
      both true = refl
      both false = refl

  -- With nothing pending before, a count after the writes and a flush is a count before: of what the
  -- writes make of the rows.
  pub count-flush-writes :
      (p q s : ℕ → A → Bool) (l : List (ℕ × A)) (t : Table A)
      → IsClean t
      → All (IsListedBy p l) t
      → ((k : ℕ) (a : A) → q k (if p k a then f a else a) ≡ s k a)
      → count q (flush (writes l t)) ≡ count s t
  unfolding count flush
  count-flush-writes p q s l [] c h e = rw (writes-nil l) refl
  count-flush-writes p q s l (r ∷ t) c h e =
      rw
        (
          writes-cons l r t,
          settle-listed r r.live l h.0.1,
          h.0.0,
          c.0,
          e r.key r.live,
          count-flush-writes p q s l t c.1 h.1 e,
        )
        refl
