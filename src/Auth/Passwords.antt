-- ===== src/Auth/Passwords.antt =====
-- `hash_password` and `verify_password` of backend/app/core/security.py. The key derivation is
-- `hashlib.pbkdf2_hmac("sha256", …)`, a parameter from a password, a salt and a number of rounds to
-- bytes; the salt that `os.urandom(16)` gives is an argument; `parse` is Python's `int()` on a text.
pub mod RoundTrip
use cyclope_central.Base.{
  ℕ, ◌+◌, ◌*◌, ◌-◌, ◌/◌, ◌%◌, zero, suc, ◌≡◌, Bool, true, false, not, ◌&&◌, ◌||◌, Option, none,
  some, List, [], ◌∷◌, ◌++◌, ◌==◌, ltb, leb, if◌then◌else◌,
}
use cyclope_central.Base.Int.{ℤ, pos, negsuc}
use cyclope_central.Base.Json.{Text, codes, text_eq}

unfoldable pub nibble : ℕ → ℕ
nibble n = if ltb n 10 then 48 + n else 87 + n

-- `bytes.hex()`
unfoldable pub hex : List ℕ → Text
unfolding nibble
hex [] = []
hex (b ∷ rest) = nibble (b / 16) ∷ nibble (b % 16) ∷ hex rest

unfoldable pub unnibble : ℕ → Option ℕ
unnibble c =
    if leb 48 c && leb c 57
    then some (c - 48)
    else if leb 97 c && leb c 102
    then some (c - 87)
    else if leb 65 c && leb c 70
    then some (c - 55)
    else none

is_space : ℕ → Bool
is_space c = c == 32 || leb 9 c && leb c 13

unfoldable pub byte_before : Option ℕ → Option ℕ → Option (List ℕ) → Option (List ℕ)
byte_before (some a) (some b) (some rest) = some ((16 * a + b) ∷ rest)
byte_before _ _ _ = none

-- `bytes.fromhex(text)`, which skips white space between bytes; `none` is a `ValueError`
unfoldable pub from_hex : Text → Option (List ℕ)
unfolding unnibble byte_before is_space
from_hex [] = some []
from_hex (c ∷ []) = if is_space c then some [] else none
from_hex (c ∷ d ∷ rest) =
    let here = byte_before (unnibble c) (unnibble d) (from_hex rest) in
    let later = from_hex (d ∷ rest) in if is_space c then later else here

-- the text before the first `$`, and what stands behind it, if there is one
unfoldable pub before_mark : Text → Text
before_mark [] = []
before_mark (c ∷ t) = let rest = before_mark t in if c == 36 then [] else c ∷ rest

unfoldable pub behind_mark : Text → Option Text
behind_mark [] = none
behind_mark (c ∷ t) = let rest = behind_mark t in if c == 36 then some t else rest

-- The four parts that `password_hash.split("$", 3)` is unpacked into; `none` where there are fewer.
pub record Parts : Type 0 where
  pub algorithm : Text
  pub iterations : Text
  pub salt_hex : Text
  pub digest_hex : Text

third_mark : Text → Text → Text → Option Text → Option Parts
third_mark a b c none = none
third_mark a b c (some d) =
    some (record { algorithm = a; iterations = b; salt_hex = c; digest_hex = d })

second_mark : Text → Text → Option Text → Option Parts
unfolding third_mark before_mark behind_mark
second_mark a b none = none
second_mark a b (some t) = third_mark a b (before_mark t) (behind_mark t)

first_mark : Text → Option Text → Option Parts
unfolding second_mark before_mark behind_mark
first_mark a none = none
first_mark a (some t) = second_mark a (before_mark t) (behind_mark t)

unfoldable pub split_hash : Text → Option Parts
unfolding first_mark before_mark behind_mark
split_hash t = first_mark (before_mark t) (behind_mark t)

module _ (pbkdf2 : Text → List ℕ → ℕ → List ℕ) (parse : Text → Option ℤ) where
  unfoldable pub hash_password : Text → List ℕ → Text
  unfolding hex
  hash_password password salt =
      codes "pbkdf2_sha256"
      ++ (36 ∷ (codes "210000" ++ (36 ∷ (hex salt ++ (36 ∷ hex (pbkdf2 password salt 210000))))))

  -- The rounds must be a positive number.
  unfoldable pub digest_matches : Text → Text → Option (List ℕ) → Option ℤ → Bool
  unfolding hex
  digest_matches password digest_hex none rounds = false
  digest_matches password digest_hex (some salt) none = false
  digest_matches password digest_hex (some salt) (some (negsuc n)) = false
  digest_matches password digest_hex (some salt) (some (pos n)) =
      not (n == 0) && text_eq (hex (pbkdf2 password salt n)) digest_hex

  unfoldable pub verify_parts : Text → Option Parts → Bool
  unfolding digest_matches from_hex
  verify_parts password none = false
  verify_parts password (some p) =
      text_eq p.algorithm (codes "pbkdf2_sha256")
      && digest_matches password p.digest_hex (from_hex p.salt_hex) (parse p.iterations)

  unfoldable pub verify_password : Text → Text → Bool
  unfolding verify_parts split_hash
  verify_password password password_hash = verify_parts password (split_hash password_hash)
