-- ===== src/Session.antt =====
-- A SQLAlchemy session (db/session.py) over one table. The sessions are made with `autoflush=False`:
-- a query runs on what the database holds, and hands back the session's objects, whose attributes may
-- have changed since. So a row keeps both: `stored` for the database, `live` for the object.
pub mod Owned
pub mod Lookup
pub mod Counts
pub mod References
pub mod Query
pub mod Laws
pub mod Rows
pub mod Keys
pub mod Distinct
use cyclope_central.Base.{
  ℕ, ◌≡◌, Bool, true, false, Option, none, some, List, [], ◌∷◌, ◌++◌, map, ◌==◌, if◌then◌else◌,
}

pub record Row {ℓ} (A : Type ℓ) : Type ℓ where
  -- the primary key
  pub key : ℕ
  -- what a query sees; `none` for an object that was added and not flushed yet
  pub stored : Option A
  pub live : A

abbrev pub Table {ℓ} : Type ℓ → Type ℓ
Table A = List (Row A)

module _ {ℓ} {A : Type ℓ} where
  -- `db.get(T, key)` for a persistent object, with its attributes as the session has them
  unfoldable pub get : ℕ → Table A → Option A
  get k [] = none
  get k (r ∷ t) =
      if r.key == k then (elim r.stored [ none ↦ none | some s ↦ some r.live ]) else get k t

  -- the attributes in the database
  unfoldable pub peek : ℕ → Table A → Option A
  peek k [] = none
  peek k (r ∷ t) = if r.key == k then r.stored else peek k t

  abbrev pub picks : (ℕ → A → Bool) → Row A → Bool
  picks p r = elim r.stored [ none ↦ false | some s ↦ p r.key s ]

  -- `db.scalars(select(T).where(p)).all()`: each object with its key
  unfoldable pub select : (ℕ → A → Bool) → Table A → List (ℕ × A)
  select p [] = []
  select p (r ∷ t) = let rest = select p t in if picks p r then (r.key, r.live) ∷ rest else rest

  -- `db.scalar(select(T).where(p))`: the first of them
  unfoldable pub scalar : (ℕ → A → Bool) → Table A → Option (ℕ × A)
  scalar p [] = none
  scalar p (r ∷ t) = let rest = scalar p t in if picks p r then some (r.key, r.live) else rest

  -- assignments to the attributes of the object with this key
  unfoldable pub write : ℕ → A → Table A → Table A
  write k a [] = []
  write k a (r ∷ t) = (if r.key == k then record r { live = a } else r) ∷ write k a t

  -- `db.add(object)`
  unfoldable pub add : ℕ → A → Table A → Table A
  add k a t = t ++ record { key = k; stored = none; live = a } ∷ []

  -- `db.flush()` on this table, and the part of `db.commit()` that writes the attributes back
  unfoldable pub flush : Table A → Table A
  flush [] = []
  flush (r ∷ t) = record r { stored = some r.live } ∷ flush t

  -- Nothing is pending: the database holds what the session does.
  abbrev pub IsClean : Table A → Type ℓ
  IsClean [] = Unit
  IsClean (r ∷ t) = (r.stored ≡ some r.live) × IsClean t
