-- ===== src/Settings/Production.antt =====
-- What the settings of a production service are like, after `validate_production_settings` of
-- backend/app/core/config.py.
use cyclope_central.Base.{
  ◌≤◌, ◌≡◌, refl, String, Bool, true, false, List, [], ◌∷◌, arith, ltb, length, All, Bool-cases,
  inl, inr,
}
use cyclope_central.Base.Json.{Text, codes, text_eq}
use cyclope_central.Http.{ok, ok-injective, >>=-eq-ok, raise_if, raise_if-ok}
use cyclope_central.Settings.{
  Settings, is_empty, required_values, names_where, is_nonempty, is_insecure, with_jwt_secret,
  check_production, validate_production_settings,
}

module _ (p : String → Text → Bool) where
  none_named :
      (l : List (String × Text))
      → is_nonempty (names_where p l) ≡ false
      → All (λ e. p e.0 e.1 ≡ false) l
  unfolding names_where is_nonempty
  none_named [] h = tt
  none_named ((name, value) ∷ rest) h = elim (Bool-cases (p name value)) [
    | inl b ↦ cc (rw b at h)
    | inr b ↦ (b, none_named rest (rw b at h))
  ]

module _ (lower : Text → Text) where
  -- Every required value is there and is neither a placeholder nor a default of development, and both
  -- secrets are long enough.
  pub record IsProductionReady (s : Settings) : Type 0 where
    pub present : All (λ e. is_empty e.1 ≡ false) (required_values s)
    pub secure : All (λ e. is_insecure lower e.0 e.1 ≡ false) (required_values s)
    pub secret : 32 ≤ length s.jwt_secret_key
    pub pepper : 32 ≤ length s.token_hash_pepper

  check_production-IsReady :
      (s s' : Settings) → check_production lower s ≡ ok s' → (s ≡ s') × IsProductionReady s
  unfolding check_production
  check_production-IsReady s s' h =
      (let missing = names_where (λ name value. is_empty value) (required_values s) in
        let insecure = names_where (is_insecure lower) (required_values s) in
        let (t, a, g) = >>=-eq-ok (raise_if (is_nonempty missing) _) _ h in
        let (u, b, f) = >>=-eq-ok (raise_if (is_nonempty insecure) _) _ g in
        let (v, c, e) = >>=-eq-ok (raise_if (ltb (length s.jwt_secret_key) 32) _) _ f in
        let (w, d, i) = >>=-eq-ok (raise_if (ltb (length s.token_hash_pepper) 32) _) _ e in
        (
          ok-injective i,
          record {
            present =
                none_named (λ name value. is_empty value) (required_values s)
                  (raise_if-ok (is_nonempty missing) _ t a);
            secure =
                none_named (is_insecure lower) (required_values s)
                  (raise_if-ok (is_nonempty insecure) _ u b);
            secret = ground (arith, raise_if-ok (ltb (length s.jwt_secret_key) 32) _ v c);
            pepper = ground (arith, raise_if-ok (ltb (length s.token_hash_pepper) 32) _ w d);
          },
        ))

  -- Settings that the validation accepts for production have every required value, none of them a
  -- placeholder or a default of development, and a JWT secret and a pepper of at least 32 characters;
  -- they are the given ones, with the JWT secret in the place of the key where there is one.
  pub validated-IsProductionReady :
      (s s' : Settings)
      → text_eq (lower s.environment) (codes "production") ≡ true
      → validate_production_settings lower s ≡ ok s'
      → (s' ≡ with_jwt_secret lower s) × IsProductionReady s'
  unfolding validate_production_settings
  validated-IsProductionReady s s' p h =
      (let (e, r) =
          check_production-IsReady (with_jwt_secret lower s) s'
            (rw (validate_production_settings, p) at h) in
        rw (← e) (refl, r))
