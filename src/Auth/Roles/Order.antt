-- ===== src/Auth/Roles/Order.antt =====
-- The roles form a chain, and managing users is the owner's alone.
use native.Mathlib.Decide.{dec_le}
use mathlib.Core.Path.{subst}
use cyclope_central.Base.{
  ℕ, zero, suc, ◌≤◌, String, ◌≡◌, refl, ◌↔◌, Bool, true, ◌&&◌, List, [], ◌∷◌, arith, str_eq, eq_iff,
  is_in, Bool-cases, inl, inr,
}
use cyclope_central.Auth.Roles.{
  viewer_permissions, technician_permissions, admin_permissions, owner_permissions,
  role_permissions,
}

all_in : List String → List String → Bool
all_in [] ys = true
all_in (x ∷ xs) ys = is_in x ys && all_in xs ys

is_in-all_in :
    (p : String) (xs ys : List String) → all_in xs ys ≡ true → is_in p xs ≡ true → is_in p ys ≡ true
unfolding all_in is_in
is_in-all_in p [] ys h m = cc
is_in-all_in p (x ∷ xs) ys h m = elim (Bool-cases (str_eq p x)) [
  | inl e ↦ rw ((eq_iff p x).0 e) (ground arith)
  | inr e ↦ is_in-all_in p xs ys (ground arith) (ground arith)
]

-- The role at a place of the order of the roles.
abbrev pub role_at : ℕ → String
role_at zero = "viewer"
role_at (suc zero) = "technician"
role_at (suc (suc zero)) = "admin"
role_at (suc (suc (suc n))) = "owner"

abbrev pub Grants : String → String → Type 0
Grants role p = is_in p (role_permissions role) ≡ true

step : (p : String) (n : ℕ) → Grants (role_at n) p → Grants (role_at (suc n)) p
unfolding role_permissions all_in is_in
step p zero h = is_in-all_in p viewer_permissions technician_permissions refl h
step p (suc zero) h = is_in-all_in p technician_permissions admin_permissions refl h
step p (suc (suc zero)) h = is_in-all_in p admin_permissions owner_permissions refl h
step p (suc (suc (suc n))) h = h

-- A role grants everything that the roles below it grant, in the order viewer, technician, admin, owner.
pub role_permissions_mono :
    (p : String) (m n : ℕ) → m ≤ n → Grants (role_at m) p → Grants (role_at n) p
role_permissions_mono p m zero h g =
    let e : m ≡ zero = omega arith in subst (λ k. Grants (role_at k) p) e g
role_permissions_mono p m (suc n) h g = elim (dec_le m n) [
  | yes k ↦ step p n (role_permissions_mono p m n k g)
  | no k ↦ (let e : m ≡ suc n = omega arith in subst (λ i. Grants (role_at i) p) e g)
]

-- Exactly the role "owner" grants "users:manage", whatever text a user's row holds as its role.
users_manage-iff-owner : (role : String) → Grants role "users:manage" ↔ (role ≡ "owner")
unfolding role_permissions is_in
users_manage-iff-owner role = (there, back)
  where
    there : Grants role "users:manage" → role ≡ "owner"
    there h = ground (arith, eq_iff role "owner")

    back : role ≡ "owner" → Grants role "users:manage"
    back h = rw h
