-- ===== src/Auth/Passwords/RoundTrip.antt =====
-- `hash_password` against `verify_password`.
use cyclope_central.Base.{
  ℕ, ◌/◌, ◌%◌, ◌<◌, ◌≡◌, refl, ap, true, false, Option, some, List, [], ◌∷◌, ◌++◌, arith, ◌==◌, All,
}
use cyclope_central.Base.Int.{ℤ, pos}
use cyclope_central.Base.Json.{Text, codes, text_eq_iff}
use cyclope_central.Auth.Passwords.{
  nibble, hex, unnibble, byte_before, from_hex, is_space, before_mark, behind_mark, Parts,
  first_mark, second_mark, third_mark, split_hash, hash_password, digest_matches, verify_parts,
  verify_password,
}

abbrev pub IsByte : ℕ → Type 0
IsByte b = b < 256

abbrev IsNoMark : ℕ → Type 0
IsNoMark c = (c == 36) ≡ false

unnibble-nibble : (n : ℕ) → n < 16 → unnibble (nibble n) ≡ some n
unfolding unnibble nibble
unnibble-nibble n h = ground arith

is_space-nibble : (n : ℕ) → is_space (nibble n) ≡ false
unfolding is_space nibble
is_space-nibble n = ground arith

from_hex-hex : (bytes : List ℕ) → All IsByte bytes → from_hex (hex bytes) ≡ some bytes
unfolding from_hex hex byte_before
from_hex-hex [] h = refl
from_hex-hex (b ∷ rest) h =
    rw
      (
        is_space-nibble (b / 16),
        unnibble-nibble (b / 16) (omega (arith, h.0)),
        unnibble-nibble (b % 16) (omega arith),
        from_hex-hex rest h.1,
      )
      (ap (λ c. some (c ∷ rest)) (omega arith))

hex-IsNoMark : (bytes : List ℕ) → All IsNoMark (hex bytes)
unfolding hex nibble
hex-IsNoMark [] = tt
hex-IsNoMark (b ∷ rest) = (ground arith, (ground arith, hex-IsNoMark rest))

before_mark-append : (s t : Text) → All IsNoMark s → before_mark (s ++ (36 ∷ t)) ≡ s
unfolding before_mark
before_mark-append [] t h = refl
before_mark-append (c ∷ s) t h = rw (before_mark, h.0, before_mark-append s t h.1) refl

behind_mark-append : (s t : Text) → All IsNoMark s → behind_mark (s ++ (36 ∷ t)) ≡ some t
unfolding behind_mark
behind_mark-append [] t h = refl
behind_mark-append (c ∷ s) t h = rw (behind_mark, h.0, behind_mark-append s t h.1) refl

module _ (pbkdf2 : Text → List ℕ → ℕ → List ℕ) (parse : Text → Option ℤ) where
  parts_of : Text → List ℕ → Parts
  parts_of password salt = record {
    algorithm = codes "pbkdf2_sha256";
    iterations = codes "210000";
    salt_hex = hex salt;
    digest_hex = hex (pbkdf2 password salt 210000);
  }

  split_hash-hash_password :
      (password : Text) (salt : List ℕ)
      → split_hash (hash_password pbkdf2 parse password salt) ≡ some (parts_of password salt)
  unfolding split_hash first_mark second_mark third_mark hash_password parts_of before_mark
      behind_mark
  split_hash-hash_password password salt =
      rw
        (
          before_mark-append (hex salt) (hex (pbkdf2 password salt 210000)) (hex-IsNoMark salt),
          behind_mark-append (hex salt) (hex (pbkdf2 password salt 210000)) (hex-IsNoMark salt),
        )
        refl

  -- A password that was hashed is verified against its hash, whatever the salt of bytes was, where `int()`
  -- reads the text "210000" as that number.
  pub verify_password-hash_password :
      (password : Text) (salt : List ℕ)
      → All IsByte salt
      → parse (codes "210000") ≡ some (pos 210000)
      → verify_password pbkdf2 parse password (hash_password pbkdf2 parse password salt) ≡ true
  unfolding verify_password verify_parts digest_matches parts_of
  verify_password-hash_password password salt b p =
      rw
        (
          split_hash-hash_password password salt,
          from_hex-hex salt b,
          p,
          (text_eq_iff (hex (pbkdf2 password salt 210000)) (hex (pbkdf2 password salt 210000))).1
              refl,
          (text_eq_iff (codes "pbkdf2_sha256") (codes "pbkdf2_sha256")).1 refl,
        )
        refl
