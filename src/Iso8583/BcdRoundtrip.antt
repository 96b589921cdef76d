-- ===== src/Iso8583/BcdRoundtrip.antt =====
-- Decimal digits survive `bcd_encode` and `bcd_decode`.
use microfinance_microservic.Common.{
  ℕ, suc, ◌+◌, ◌-◌, ◌*◌, ◌/◌, ◌%◌, ◌≤◌, ◌≡◌, refl, some, [], ◌∷◌, ◌++◌, length, take, All, arith,
}
use microfinance_microservic.Iso8583.Bcd.{
  Bytes, Text, hex_value, fromhex, hex_digit, hex, bcd_encode, bcd_decode, bcd_byte_len,
}

-- A decimal digit
abbrev pub IsDecimal : ℕ → Type 0
IsDecimal c = (48 ≤ c) × (c ≤ 57)

-- What `bcd_encode` is for, in one recursion: two digits a byte, the last one filled with 15.
abbrev pub packed : Text → Bytes
packed [] = []
packed (c ∷ []) = (16 * (c - 48) + 15) ∷ []
packed (c ∷ d ∷ rest) = (16 * (c - 48) + (d - 48)) ∷ packed rest

even_suc : (n : ℕ) → suc (suc n) % 2 ≡ n % 2
even_suc n = omega arith

hex_value_decimal : (c : ℕ) → IsDecimal c → hex_value c ≡ some (c - 48)
unfolding hex_value
hex_value_decimal c h = ground arith

f_digit : hex_value 70 ≡ some 15
unfolding hex_value
f_digit = refl

pair_high : (c d : ℕ) → IsDecimal c → IsDecimal d → hex_digit ((16 * (c - 48) + (d - 48)) / 16) ≡ c
pair_high c d hc hd = ground arith

pair_low : (c d : ℕ) → IsDecimal c → IsDecimal d → hex_digit ((16 * (c - 48) + (d - 48)) % 16) ≡ d
pair_low c d hc hd = ground arith

fromhex_pair :
    (c d : ℕ) (rest : Text) (bytes : Bytes)
    → IsDecimal c
    → IsDecimal d
    → fromhex rest ≡ some bytes
    → fromhex (c ∷ d ∷ rest) ≡ some ((16 * (c - 48) + (d - 48)) ∷ bytes)
unfolding fromhex
fromhex_pair c d rest bytes hc hd h =
    grind (arith, hex_value_decimal c hc, hex_value_decimal d hd, hc, hd)

pub bcd_encode-packed :
    (digits : Text) → All IsDecimal digits → bcd_encode digits ≡ some (packed digits)
unfolding bcd_encode fromhex
bcd_encode-packed [] h = refl
bcd_encode-packed (c ∷ []) h = grind (arith, hex_value_decimal c h.0, f_digit, h.0)
bcd_encode-packed (c ∷ d ∷ rest) h = grind (
  arith,
  bcd_encode-packed rest h.1.1,
  even_suc (length rest),
  fromhex_pair c d rest (packed rest) h.0 h.1.0,
  fromhex_pair c d (rest ++ 70 ∷ []) (packed rest) h.0 h.1.0,
)

take-hex :
    (digits : Text) → All IsDecimal digits → take (length digits) (hex (packed digits)) ≡ digits
unfolding hex
take-hex [] h = refl
take-hex (c ∷ []) h = ground arith
take-hex (c ∷ d ∷ rest) h =
    grind (arith, pair_high c d h.0 h.1.0, pair_low c d h.0 h.1.0, take-hex rest h.1.1)

length-packed : (digits : Text) → length (packed digits) ≡ bcd_byte_len (length digits)
length-packed [] = refl
length-packed (c ∷ []) = refl
length-packed (c ∷ d ∷ rest) = omega (arith, length-packed rest)

-- Decimal digits, however many, are encoded, and decoded again from the bytes, of which there are
-- as many as bcd_byte_len says.
pub bcd_decode-bcd_encode :
    (digits : Text)
    → All IsDecimal digits
    → (bytes : Bytes) × (bcd_encode digits ≡ some bytes)
      × (bcd_decode bytes (length digits) ≡ digits)
      × (length bytes ≡ bcd_byte_len (length digits))
unfolding bcd_decode
bcd_decode-bcd_encode digits h =
    (packed digits, bcd_encode-packed digits h, take-hex digits h, length-packed digits)
