-- ===== src/Bootstrap/Slug.antt =====
-- `_slugify` of backend/app/core/bootstrap.py. `is_alnum` and `lower` are `str.isalnum()` and
-- `str.lower()` of one character.
use cyclope_central.Base.{ℕ, Bool, List, [], ◌∷◌, ◌++◌, ◌==◌, if◌then◌else◌}
use mathlib.Core.List.{reverse}
use cyclope_central.Base.Json.{Text, codes}

abbrev pub dash : ℕ
dash = 45

unfoldable pub lstrip : Text → Text
lstrip [] = []
lstrip (c ∷ t) = let rest = lstrip t in if c == dash then rest else c ∷ t

-- `strip("-")`
unfoldable pub strip : Text → Text
unfolding lstrip
strip t = reverse (lstrip (reverse (lstrip t)))

-- `c` put in front of the first part
unfoldable pub onto_first : ℕ → List Text → List Text
onto_first c [] = (c ∷ []) ∷ []
onto_first c (p ∷ parts) = (c ∷ p) ∷ parts

-- `split("-")`
unfoldable pub split_dash : Text → List Text
unfolding onto_first
split_dash [] = [] ∷ []
split_dash (c ∷ t) =
    let parts = split_dash t in if c == dash then [] ∷ parts else onto_first c parts

-- `part for part in … if part`
unfoldable pub non_empty_parts : List Text → List Text
non_empty_parts [] = []
non_empty_parts ([] ∷ parts) = non_empty_parts parts
non_empty_parts ((c ∷ p) ∷ parts) = (c ∷ p) ∷ non_empty_parts parts

-- `"-".join(parts)`
unfoldable pub join_dash : List Text → Text
join_dash [] = []
join_dash (p ∷ []) = p
join_dash (p ∷ q ∷ parts) = p ++ (dash ∷ join_dash (q ∷ parts))

unfoldable pub or_default : Text → Text
or_default [] = codes "default"
or_default (c ∷ t) = c ∷ t

module _ (is_alnum : ℕ → Bool) (lower : ℕ → Text) where
  unfoldable pub replaced : Text → Text
  replaced [] = []
  replaced (c ∷ t) = (if is_alnum c then lower c else dash ∷ []) ++ replaced t

  unfoldable pub slugify : Text → Text
  unfolding replaced strip split_dash non_empty_parts join_dash or_default
  slugify value = or_default (join_dash (non_empty_parts (split_dash (strip (replaced value)))))
