-- ===== src/Session/References.antt =====
-- References from one table to another: the row that a key names, and the tables that keep it.
use cyclope_central.Base.{ℕ, ◌≡◌, none, some, [], ◌∷◌, arith, Option}
use cyclope_central.Session.{Table, get, add, flush}
use cyclope_central.Session.Laws.{get-flush}
use cyclope_central.Session.Rows.{AllRows}

module _ {ℓ} {A : Type ℓ} where
  -- Whatever one table has under a key, the other has too.
  abbrev pub IsKeptBy : Table A → Table A → Type ℓ
  IsKeptBy t t' = (k : ℕ) (a : A) → get k t ≡ some a → get k t' ≡ some a

  pub get-add : (k j : ℕ) (a b : A) (t : Table A) → get k t ≡ some a → get k (add j b t) ≡ some a
  unfolding get add
  get-add k j a b [] h = cc
  get-add k j a b (r ∷ t) h = ground (arith, get-add k j a b t)

  pub refl-IsKeptBy : (t : Table A) → IsKeptBy t t
  refl-IsKeptBy t k a h = h

  pub add-IsKeptBy : (j : ℕ) (b : A) (t : Table A) → IsKeptBy t (add j b t)
  add-IsKeptBy j b t k a h = get-add k j a b t h

  pub flush-IsKeptBy : (t : Table A) → IsKeptBy t (flush t)
  flush-IsKeptBy t k a h = get-flush k a t h

  -- The key names a row of the organization.
  abbrev pub IsOwned : (A → ℕ) → Table A → ℕ → ℕ → Type ℓ
  IsOwned org_of t organization_id k = (a : A) × (get k t ≡ some a) × (org_of a ≡ organization_id)

  -- The key, if there is one, names a row of the organization.
  abbrev pub IsOwnedIfAny : (A → ℕ) → Table A → ℕ → Option ℕ → Type ℓ
  IsOwnedIfAny org_of t organization_id none = Unit
  IsOwnedIfAny org_of t organization_id (some k) = IsOwned org_of t organization_id k

  module _ (org_of : A → ℕ) (t t' : Table A) (kept : IsKeptBy t t') where
    pub IsOwned-kept :
        (organization_id k : ℕ)
        → IsOwned org_of t organization_id k
        → IsOwned org_of t' organization_id k
    IsOwned-kept organization_id k (a, h, o) = (a, kept k a h, o)

    pub IsOwnedIfAny-kept :
        (organization_id : ℕ) (k : Option ℕ)
        → IsOwnedIfAny org_of t organization_id k
        → IsOwnedIfAny org_of t' organization_id k
    IsOwnedIfAny-kept organization_id none h = tt
    IsOwnedIfAny-kept organization_id (some k) h = IsOwned-kept organization_id k h

pub AllRows-map {ℓ κ μ} :
    {A : Type ℓ} (P : A → Type κ) (Q : A → Type μ) (t : Table A)
    → ((a : A) → P a → Q a)
    → AllRows P t
    → AllRows Q t
AllRows-map P Q [] f h = tt
AllRows-map P Q (r ∷ t) f h = (f r.live h.0, AllRows-map P Q t f h.1)
