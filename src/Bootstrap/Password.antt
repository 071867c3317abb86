-- ===== src/Bootstrap/Password.antt =====
-- `validate_strong_password` of backend/app/core/bootstrap.py. The classes of characters are Python's
-- `str.islower()`, `isupper()`, `isdigit()` and `isalnum()`, parameters of the model.
use cyclope_central.Base.{ℕ, ◌+◌, Bool, false, not, ◌||◌, [], ◌∷◌, ltb, if◌then◌else◌, length}
use cyclope_central.Base.Json.{Text}
use cyclope_central.Http.{Result, ◌>>◌, raise_if, value_error}

unfoldable pub any_char : (ℕ → Bool) → Text → Bool
any_char p [] = false
any_char p (c ∷ t) = p c || any_char p t

abbrev pub as_number : Bool → ℕ
as_number b = if b then 1 else 0

module _ (is_lower is_upper is_digit is_alnum : ℕ → Bool) where
  unfoldable pub class_count : Text → ℕ
  class_count t =
      as_number (any_char is_lower t)
      + as_number (any_char is_upper t)
      + as_number (any_char is_digit t)
      + as_number (any_char (λ c. not (is_alnum c)) t)

  unfoldable pub validate_strong_password : Text → Result (Unit {0})
  validate_strong_password password = do
    raise_if (ltb (length password) 12) (value_error "Password must be at least 12 characters long")
    raise_if (ltb (class_count password) 3)
        (value_error "Password must include at least three character classes")
