-- ===== src/Devices/Sync.antt =====
-- What a series of writes to one table comes to, where each entry that has a row's key has the row's
-- object, and what `list_devices` of backend/app/api/devices.py writes.
pub mod Writes
pub mod Listed
use mathlib.Core.Path.{subst}
use cyclope_central.Base.{
  ℕ, ◌≡◌, refl, sym, Bool, true, false, not, ◌&&◌, ◌||◌, List, [], ◌∷◌, arith, ◌==◌, if◌then◌else◌,
  All, Bool-cases, ◌⊎◌, inl, inr,
}
use cyclope_central.Session.{Table, Row, select, write, picks, IsClean}
use cyclope_central.Session.Keys.{IsAbsent, HasDistinctKeys}
use cyclope_central.Session.Query.{insert_by, order_by}

module _ {ℓ} {A : Type ℓ} where
  -- an entry of the list has the key
  abbrev pub has_key : ℕ → List (ℕ × A) → Bool
  has_key k [] = false
  has_key k (e ∷ l) = k == e.0 || has_key k l

  -- An entry with the row's key has the row's object.
  abbrev pub AgreesWith : Row A → ℕ × A → Type ℓ
  AgreesWith r e = ((r.key == e.0) ≡ false) ⊎ (e.1 ≡ r.live)

  has_key-insert_by :
      (before : ℕ × A → ℕ × A → Bool) (k : ℕ) (e : ℕ × A) (l : List (ℕ × A))
      → has_key k (insert_by before e l) ≡ (k == e.0 || has_key k l)
  unfolding insert_by
  has_key-insert_by before k e [] = refl
  has_key-insert_by before k e (f ∷ l) = elim (Bool-cases (before e f)) [
    | inl b ↦ rw b refl
    | inr b ↦ rw b (ground (arith, has_key-insert_by before k e l))
  ]

  pub has_key-order_by :
      (before : ℕ × A → ℕ × A → Bool) (k : ℕ) (l : List (ℕ × A))
      → has_key k (order_by before l) ≡ has_key k l
  unfolding order_by
  has_key-order_by before k [] = refl
  has_key-order_by before k (e ∷ l) =
      rw (has_key-insert_by before k e (order_by before l), has_key-order_by before k l) refl

  All-insert_by {κ} :
      (P : ℕ × A → Type κ) (before : ℕ × A → ℕ × A → Bool) (e : ℕ × A) (l : List (ℕ × A))
      → P e
      → All P l
      → All P (insert_by before e l)
  unfolding insert_by
  All-insert_by P before e [] p h = (p, tt)
  All-insert_by P before e (f ∷ l) p h = elim (Bool-cases (before e f)) [
    | inl b ↦ rw b (p, h)
    | inr b ↦ rw b (h.0, All-insert_by P before e l p h.1)
  ]

  pub All-order_by {κ} :
      (P : ℕ × A → Type κ) (before : ℕ × A → ℕ × A → Bool) (l : List (ℕ × A))
      → All P l
      → All P (order_by before l)
  unfolding order_by
  All-order_by P before [] h = tt
  All-order_by P before (e ∷ l) h =
      All-insert_by P before e (order_by before l) h.0 (All-order_by P before l h.1)

  -- A key that no row has is none of a query's.
  has_key-select :
      (p : ℕ → A → Bool) (k : ℕ) (t : Table A) → IsAbsent k t → has_key k (select p t) ≡ false
  unfolding select
  has_key-select p k [] h = refl
  has_key-select p k (r ∷ t) h = elim (Bool-cases (picks p r)) [
    | inl b ↦ rw (b, h.0) (has_key-select p k t h.1)
    | inr b ↦ rw b (has_key-select p k t h.1)
  ]

  absent_agrees :
      (p : ℕ → A → Bool) (r : Row A) (t : Table A)
      → IsAbsent r.key t
      → All (AgreesWith r) (select p t)
  unfolding select
  absent_agrees p r [] h = tt
  absent_agrees p r (q ∷ t) h = elim (Bool-cases (picks p q)) [
    | inl b ↦ rw b (inl h.0, absent_agrees p r t h.1)
    | inr b ↦ rw b (absent_agrees p r t h.1)
  ]

  -- The query has the row exactly if its condition picks it, and then with its object.
  abbrev pub IsListedBy : (ℕ → A → Bool) → List (ℕ × A) → Row A → Type ℓ
  IsListedBy p l r = (has_key r.key l ≡ picks p r) × All (AgreesWith r) l

  listed_later :
      (p : ℕ → A → Bool) (r : Row A) (l : List (ℕ × A)) (t : Table A)
      → IsAbsent r.key t
      → All (IsListedBy p l) t
      → All (IsListedBy p ((r.key, r.live) ∷ l)) t
  listed_later p r l [] h s = tt
  listed_later p r l (q ∷ t) h s =
      (let d : (q.key == r.key) ≡ false = ground (arith, h.0) in
        ((rw d (s.0.0), (inl d, s.0.1)), listed_later p r l t h.1 s.1))

  select_lists :
      (p : ℕ → A → Bool) (t : Table A) → HasDistinctKeys t → All (IsListedBy p (select p t)) t
  unfolding select
  select_lists p [] h = tt
  select_lists p (r ∷ t) h = elim (Bool-cases (picks p r)) [
    | inl b ↦
        (let e : select p (r ∷ t) ≡ (r.key, r.live) ∷ select p t = rw b refl in
          subst (λ l. All (IsListedBy p l) (r ∷ t)) (sym e)
            (
              (rw b (ground arith), (inr refl, absent_agrees p r t h.0)),
              listed_later p r (select p t) t h.0 (select_lists p t h.1),
            ))
    | inr b ↦
        (let e : select p (r ∷ t) ≡ select p t = rw b refl in
          subst (λ l. All (IsListedBy p l) (r ∷ t)) (sym e)
            ((rw b (has_key-select p r.key t h.0), absent_agrees p r t h.0), select_lists p t h.1))
  ]

  ordered_lists :
      (p : ℕ → A → Bool) (before : ℕ × A → ℕ × A → Bool) (l : List (ℕ × A)) (t : Table A)
      → All (IsListedBy p l) t
      → All (IsListedBy p (order_by before l)) t
  ordered_lists p before l [] h = tt
  ordered_lists p before l (r ∷ t) h = (
    (rw (has_key-order_by before r.key l) (h.0.0), All-order_by (AgreesWith r) before l h.0.1),
    ordered_lists p before l t h.1,
  )

  -- Whatever its order is, the answer of a query on rows with distinct keys lists those it picks.
  pub query_lists :
      (p : ℕ → A → Bool) (before : ℕ × A → ℕ × A → Bool) (t : Table A)
      → HasDistinctKeys t
      → All (IsListedBy p (order_by before (select p t))) t
  query_lists p before t h = ordered_lists p before (select p t) t (select_lists p t h)
