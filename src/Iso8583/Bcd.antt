-- ===== src/Iso8583/Bcd.antt =====
-- libs/mfcommon/mfcommon/iso8583/parser.py: `bcd_encode`, `bcd_decode` and `bcd_byte_len`, with the
-- `bytes.fromhex` and `bytes.hex` of Python that they call.
use microfinance_microservic.Common.{
  ℕ, ◌+◌, ◌-◌, ◌*◌, ◌/◌, ◌%◌, Bool, ◌&&◌, ◌||◌, Option, none, some, List, [], ◌∷◌, ◌++◌, leb, ltb,
  nat_eq, if◌then◌else◌, length, take,
}

abbrev pub Bytes : Type 0
Bytes = List ℕ

abbrev pub Text : Type 0
Text = List ℕ

-- The value of a hexadecimal digit
unfoldable pub hex_value : ℕ → Option ℕ
hex_value c =
    if leb 48 c && leb c 57
    then some (c - 48)
    else if leb 65 c && leb c 70
    then some (c - 55)
    else if leb 97 c && leb c 102
    then some (c - 87)
    else none

abbrev pub is_space : ℕ → Bool
is_space c = nat_eq c 32 || (leb 9 c && leb c 13)

abbrev pub byte_of : Option ℕ → Option ℕ → Option Bytes → Option Bytes
byte_of (some a) (some b) (some rest) = some ((16 * a + b) ∷ rest)
byte_of _ _ _ = none

-- `bytes.fromhex`, which passes over white space between bytes
unfoldable pub fromhex : Text → Option Bytes
unfolding hex_value
fromhex [] = some []
fromhex (c ∷ []) = if is_space c then some [] else none
fromhex (c ∷ d ∷ rest) =
    let later = fromhex (d ∷ rest) in
    let pair = byte_of (hex_value c) (hex_value d) (fromhex rest) in
    if is_space c then later else pair

-- An upper-case hexadecimal digit
abbrev pub hex_digit : ℕ → ℕ
hex_digit v = if ltb v 10 then 48 + v else 55 + v

-- `data.hex().upper()`
unfoldable pub hex : Bytes → Text
hex [] = []
hex (b ∷ rest) = hex_digit (b / 16) ∷ hex_digit (b % 16) ∷ hex rest

-- An odd number of digits is filled up with an F
unfoldable pub bcd_encode : Text → Option Bytes
unfolding fromhex
bcd_encode digits = fromhex (if nat_eq (length digits % 2) 1 then digits ++ 70 ∷ [] else digits)

unfoldable pub bcd_decode : Bytes → ℕ → Text
unfolding hex
bcd_decode bytes num_digits = take num_digits (hex bytes)

abbrev pub bcd_byte_len : ℕ → ℕ
bcd_byte_len num_digits = (num_digits + 1) / 2
