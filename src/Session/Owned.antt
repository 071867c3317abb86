-- ===== src/Session/Owned.antt =====
-- A row of the caller's organization: the guard that the handlers put after `db.get(...)`.
use cyclope_central.Base.{
  ℕ, String, ◌≡◌, refl, Option, none, some, arith, ◌==◌, if◌then◌else◌, Bool-cases, inl, inr,
}
use cyclope_central.Http.{Result, ok, err, not_found, ok-injective}

module _ {ℓ} {A : Type ℓ} (org_of : A → ℕ) (detail : String) (organization_id : ℕ) where
  -- `if row is None or row.organization_id != organization_id: raise HTTPException(404, detail)`
  unfoldable pub owned : Option A → Result A
  owned none = err (not_found detail)
  owned (some row) = if org_of row == organization_id then ok row else err (not_found detail)

  pub owned_sound :
      (found : Option A) (row : A)
      → owned found ≡ ok row
      → (found ≡ some row) × (org_of row ≡ organization_id)
  unfolding owned
  owned_sound none row h = cc
  owned_sound (some a) row h = elim (Bool-cases (org_of a == organization_id)) [
    | inl v ↦ (let i : a ≡ row = ok-injective (rw v at h) in rw (← i) (refl, ground arith))
    | inr v ↦ cc (rw v at h)
  ]
