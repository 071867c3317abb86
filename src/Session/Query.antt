-- ===== src/Session/Query.antt =====
-- Queries that order and count: `order_by(...)` and `select(func.count()).where(...)`.
use cyclope_central.Base.{ℕ, suc, Bool, none, some, List, [], ◌∷◌, if◌then◌else◌}
use cyclope_central.Session.{Table, picks}

module _ {ℓ} {A : Type ℓ} where
  -- `before a b` where the order puts `a` before `b`, or does not tell them apart
  unfoldable pub insert_by : (A → A → Bool) → A → List A → List A
  insert_by before a [] = a ∷ []
  insert_by before a (b ∷ rest) =
      let later = insert_by before a rest in if before a b then a ∷ b ∷ rest else b ∷ later

  unfoldable pub order_by : (A → A → Bool) → List A → List A
  unfolding insert_by
  order_by before [] = []
  order_by before (a ∷ rest) = insert_by before a (order_by before rest)

  unfoldable pub count : (ℕ → A → Bool) → Table A → ℕ
  count p [] = 0
  count p (r ∷ t) = let rest = count p t in if picks p r then suc rest else rest

-- `select(T.column).where(...)`: what the database holds in the column
unfoldable pub column {ℓ κ} :
    {A : Type ℓ} {B : Type κ} → (ℕ → A → Bool) → (A → B) → Table A → List B
column p f [] = []
column p f (r ∷ t) =
    let rest = column p f t in
    elim r.stored [ none ↦ rest | some s ↦ if p r.key s then f s ∷ rest else rest ]
