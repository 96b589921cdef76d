-- ===== src/Auth/Passwords.antt =====
-- libs/mfcommon/mfcommon/auth/passwords.py. `hashlib.pbkdf2_hmac` with its rounds is a parameter, and
-- the salt that `os.urandom` draws an argument.
use microfinance_microservic.Common.{
  ℕ, ◌+◌, ◌*◌, ◌/◌, ◌%◌, ◌<◌, ◌≡◌, refl, ap, String, Bool, true, false, ◌&&◌, Option, none, some,
  [], ◌∷◌, ◌++◌, ltb, nat_eq, nat_eq_iff, if◌then◌else◌, All, arith,
}
use microfinance_microservic.Iso8583.Bcd.{Bytes, Text, fromhex, hex_value, is_space}
use microfinance_microservic.Auth.{PasswordHashing}

-- A lower-case hexadecimal digit, and `data.hex()`
abbrev hex_char : ℕ → ℕ
hex_char v = if ltb v 10 then 48 + v else 87 + v

unfoldable pub hex_text : Bytes → Text
hex_text [] = []
hex_text (b ∷ rest) = hex_char (b / 16) ∷ hex_char (b % 16) ∷ hex_text rest

-- `hmac.compare_digest`
unfoldable pub same_text : Text → Text → Bool
same_text [] [] = true
same_text [] (d ∷ t) = false
same_text (c ∷ s) [] = false
same_text (c ∷ s) (d ∷ t) = nat_eq c d && same_text s t

abbrev part_before : ℕ → Option (Text × Text) → Option (Text × Text)
part_before c none = none
part_before c (some (before, after)) = some (c ∷ before, after)

-- `stored_hash.split("$", 1)`, of a text that has the sign
unfoldable split_dollar : Text → Option (Text × Text)
split_dollar [] = none
split_dollar (c ∷ s) =
    let later = split_dollar s in if nat_eq c 36 then some ([], s) else part_before c later

module _ (pbkdf2 : String → Bytes → Bytes) where
  unfoldable pub hash_password : Bytes → String → Text
  unfolding hex_text
  hash_password salt password = hex_text salt ++ 36 ∷ hex_text (pbkdf2 password salt)

  abbrev verify_salted : String → Text → Option Bytes → Option Bool
  unfolding same_text hex_text
  verify_salted password expected_hex none = none
  verify_salted password expected_hex (some salt) =
      some (same_text (hex_text (pbkdf2 password salt)) expected_hex)

  abbrev verify_split : String → Option (Text × Text) → Option Bool
  unfolding same_text hex_text
  verify_split password none = some false
  verify_split password (some (salt_hex, expected_hex)) =
      verify_salted password expected_hex (fromhex salt_hex)

  unfoldable pub verify_password : String → Text → Option Bool
  unfolding split_dollar fromhex same_text hex_text
  verify_password password stored_hash = verify_split password (split_dollar stored_hash)

hex_char-hex_value : (v : ℕ) → v < 16 → hex_value (hex_char v) ≡ some v
unfolding hex_value
hex_char-hex_value v h = ground arith

hex_char_no_space : (v : ℕ) → v < 16 → is_space (hex_char v) ≡ false
hex_char_no_space v h = ground arith

hex_char_no_dollar : (v : ℕ) → v < 16 → nat_eq (hex_char v) 36 ≡ false
hex_char_no_dollar v h = ground arith

byte_parts : (b : ℕ) → 16 * (b / 16) + b % 16 ≡ b
byte_parts b = omega arith

fromhex-hex_text :
    (bytes : Bytes) → All (λ b. b < 256) bytes → fromhex (hex_text bytes) ≡ some bytes
unfolding fromhex hex_text
fromhex-hex_text [] h = refl
fromhex-hex_text (b ∷ bytes) h =
    rw
      (
        hex_char_no_space (b / 16) (omega (arith, h.0)),
        hex_char-hex_value (b / 16) (omega (arith, h.0)),
        hex_char-hex_value (b % 16) (omega arith),
        fromhex-hex_text bytes h.1,
        byte_parts b,
      )
      refl

split_dollar-hex_text :
    (bytes : Bytes) (rest : Text)
    → All (λ b. b < 256) bytes
    → split_dollar (hex_text bytes ++ 36 ∷ rest) ≡ some (hex_text bytes, rest)
unfolding split_dollar hex_text
split_dollar-hex_text [] rest h = refl
split_dollar-hex_text (b ∷ bytes) rest h =
    rw
      (
        hex_char_no_dollar (b / 16) (omega (arith, h.0)),
        hex_char_no_dollar (b % 16) (omega arith),
        split_dollar-hex_text bytes rest h.1,
      )
      refl

same_text_refl : (s : Text) → same_text s s ≡ true
unfolding same_text
same_text_refl [] = refl
same_text_refl (c ∷ s) = rw ((nat_eq_iff c c).1 refl) (same_text_refl s)

module _ (pbkdf2 : String → Bytes → Bytes) where
  -- A password verifies against its own stored hash, whatever the salt was; another verifies
  -- exactly where its derived key has the same digits.
  pub verify_password-hash_password :
      (salt : Bytes) (password other : String)
      → All (λ b. b < 256) salt
      → (verify_password pbkdf2 other (hash_password pbkdf2 salt password)
          ≡ some (same_text (hex_text (pbkdf2 other salt)) (hex_text (pbkdf2 password salt))))
        × (verify_password pbkdf2 password (hash_password pbkdf2 salt password) ≡ some true)
  unfolding verify_password hash_password
  verify_password-hash_password salt password other h = (
    rw (split_dollar-hex_text salt (hex_text (pbkdf2 password salt)) h, fromhex-hex_text salt h)
        refl,
    rw (split_dollar-hex_text salt (hex_text (pbkdf2 password salt)) h, fromhex-hex_text salt h)
        (ap some (same_text_refl (hex_text (pbkdf2 password salt)))),
  )

  -- What auth-service uses of it, with a salt of bytes.
  abbrev pub hashing : PasswordHashing Text ((salt : Bytes) × All (λ b. b < 256) salt)
  hashing = record {
    hash_password = λ salt password. hash_password pbkdf2 salt.0 password;
    verify_password = verify_password pbkdf2;
    verify_own = λ salt password. (verify_password-hash_password salt.0 password password salt.1).1;
  }
