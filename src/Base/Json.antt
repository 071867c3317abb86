-- ===== src/Base/Json.antt =====
-- JSON data as Python holds it after parsing. A text is the list of its code points. What the program
-- does with a float or a nested value is `str()` and `int()`, so these carry the results of those.
use Prim.Native.Nat.{ℕ, zero, suc, ◌+◌, ◌/◌, ◌%◌}
use Prim.Native.Char.{code}
use Prim.Native.String.{String}
use mathlib.Core.Path.{◌≡◌}
use mathlib.Core.Logic.{◌↔◌}
use native.Mathlib.Omega.{arith}
use mathlib.Core.Bool.{Bool, true, false, ◌&&◌, ◌||◌}
use mathlib.Core.Option.{Option, none, some}
use mathlib.Core.List.{List, [], ◌∷◌}
use text.Mathlib.Text.{◌==◌ as str_eq}
use cyclope_central.Base.Tests.{ltb, ◌==◌, if◌then◌else◌}
use cyclope_central.Base.Int.{ℤ, pos, negsuc}

abbrev pub Text : Type 0
Text = List ℕ

abbrev pub codes : String → Text
codes String.[] = []
codes (String.◌∷◌ c s) = code c ∷ codes s

pub data JsonValue : Type 0 where
  null : JsonValue
  bool : Bool → JsonValue
  int : ℤ → JsonValue
  -- a float, by its `str()` and its `int()`
  real : Text → ℤ → JsonValue
  str : Text → JsonValue
  -- a list or a dict, by its `str()`
  compound : Text → JsonValue

abbrev pub Dict : Type 0
Dict = List (String × JsonValue)

-- `d.get(key)`
abbrev pub get : String → Dict → Option JsonValue
get k [] = none
get k ((j, v) ∷ d) = if str_eq j k then some v else get k d

-- the decimal digits of a number, before those in `acc`; `fuel` is at least the number of digits
abbrev decimal_from : ℕ → ℕ → Text → Text
decimal_from zero n acc = acc
decimal_from (suc fuel) n acc =
    let rest = decimal_from fuel (n / 10) ((48 + n % 10) ∷ acc) in
    if ltb n 10 then (48 + n) ∷ acc else rest

-- `str(n)`: a number has at most as many digits as it counts, and one if it is zero
abbrev pub decimal : ℕ → Text
decimal n = decimal_from (suc n) n []

-- `str(value)`
unfoldable pub str_of : JsonValue → Text
str_of null = codes "None"
str_of (bool true) = codes "True"
str_of (bool false) = codes "False"
str_of (int (pos n)) = decimal n
str_of (int (negsuc n)) = 45 ∷ decimal (suc n)
str_of (real printed whole) = printed
str_of (str t) = t
str_of (compound printed) = printed

-- `int(value)`, where `none` is a `TypeError` or a `ValueError`; `parse` is Python's reading of a text
unfoldable pub int_of : (Text → Option ℤ) → JsonValue → Option ℤ
int_of parse null = none
int_of parse (bool true) = some (pos 1)
int_of parse (bool false) = some (pos 0)
int_of parse (int z) = some z
int_of parse (real printed whole) = some whole
int_of parse (str t) = parse t
int_of parse (compound printed) = none

-- `a == b` on texts
unfoldable pub text_eq : Text → Text → Bool
text_eq [] [] = true
text_eq [] (d ∷ t) = false
text_eq (c ∷ s) [] = false
text_eq (c ∷ s) (d ∷ t) = (c == d) && text_eq s t

unfoldable pub starts_with : Text → Text → Bool
starts_with [] t = true
starts_with (c ∷ s) [] = false
starts_with (c ∷ s) (d ∷ t) = (c == d) && starts_with s t

-- `s in t`
unfoldable pub is_within : Text → Text → Bool
unfolding starts_with
is_within s [] = starts_with s []
is_within s (d ∷ t) = starts_with s (d ∷ t) || is_within s t

pub text_eq_iff : (s t : Text) → (text_eq s t ≡ true) ↔ (s ≡ t)
unfolding text_eq
text_eq_iff [] [] = ground arith
text_eq_iff [] (d ∷ t) = ground arith
text_eq_iff (c ∷ s) [] = ground arith
text_eq_iff (c ∷ s) (d ∷ t) = ground (arith, text_eq_iff s t)
