-- ===== src/Iso8583/Fields.antt =====
-- libs/mfcommon/mfcommon/iso8583/parser.py: one field, as the loops of `build_message` and
-- `parse_message` write and read it, and the loops themselves. What the source raises is `none`.
use microfinance_microservic.Common.{
  ℕ, zero, suc, ◌+◌, ◌-◌, ◌*◌, ◌/◌, ◌%◌, Bool, true, ◌&&◌, ◌||◌, Option, none, some, List, [], ◌∷◌,
  ◌++◌, leb, ltb, nat_eq, if◌then◌else◌, length, take, drop, replicate,
}
use microfinance_microservic.Iso8583.Bcd.{Bytes, Text, bcd_encode, bcd_decode, bcd_byte_len}
use microfinance_microservic.Iso8583.Catalog.{LengthType, FieldSpec, field_spec}

-- `value.rjust(n, "0")`
abbrev pub rjust_zeros : ℕ → Text → Text
rjust_zeros n value = replicate (n - length value) 48 ++ value

-- `value.ljust(n)`
abbrev pub ljust : ℕ → Text → Text
ljust n value = value ++ replicate (n - length value) 32

-- What `str.rstrip` removes of Latin-1
abbrev pub is_white : ℕ → Bool
is_white c = (leb 9 c && leb c 13) || (leb 28 c && leb c 32) || nat_eq c 133 || nat_eq c 160

-- A character before what is left of a text: white space at the end goes too
abbrev keep : ℕ → Text → Text
keep c [] = if is_white c then [] else c ∷ []
keep c (d ∷ s) = c ∷ d ∷ s

-- `raw_value.rstrip()`
unfoldable pub rstrip : Text → Text
rstrip [] = []
rstrip (c ∷ s) = keep c (rstrip s)

abbrev cons_to : ℕ → Option Bytes → Option Bytes
cons_to c none = none
cons_to c (some s) = some (c ∷ s)

-- `value.encode("latin-1")`
unfoldable pub latin_1 : Text → Option Bytes
latin_1 [] = some []
latin_1 (c ∷ s) = let rest = latin_1 s in if ltb c 256 then cons_to c rest else none

-- The decimal digits of a number, by fuel: the number itself is enough
unfoldable pub decimal : ℕ → ℕ → Text
decimal zero n = (48 + n % 10) ∷ []
decimal (suc fuel) n =
    let high = decimal fuel (n / 10) in
    if ltb n 10 then (48 + n) ∷ [] else high ++ (48 + n % 10) ∷ []

-- f"{n:02d}"
unfoldable pub two_digits : ℕ → Text
unfolding decimal
two_digits n = if ltb n 100 then (48 + n / 10) ∷ (48 + n % 10) ∷ [] else decimal n n

-- f"{n:04d}"
unfoldable pub four_digits : ℕ → Text
unfolding decimal
four_digits n =
    if ltb n 10000
    then (48 + n / 1000) ∷ (48 + n / 100 % 10) ∷ (48 + n / 10 % 10) ∷ (48 + n % 10) ∷ []
    else decimal n n

-- `int` of a text of hexadecimal digits, the first of them first
abbrev int_from : ℕ → Text → Option ℕ
int_from n [] = some n
int_from n (c ∷ s) =
    let rest = int_from (10 * n + (c - 48)) s in if leb 48 c && leb c 57 then rest else none

unfoldable pub int_of : Text → Option ℕ
int_of [] = none
int_of (c ∷ s) = int_from 0 (c ∷ s)

abbrev pub joined : Option Bytes → Option Bytes → Option Bytes
joined (some a) (some b) = some (a ++ b)
joined _ _ = none

unfoldable pub encode_body : Bool → Text → Option Bytes
unfolding bcd_encode latin_1
encode_body numeric value = if numeric then bcd_encode value else latin_1 value

abbrev first_bytes : ℕ → Option Bytes → Option Bytes
first_bytes n none = none
first_bytes n (some bytes) = some (take n bytes)

unfoldable pub encode_as : LengthType → FieldSpec → Text → Option Bytes
unfolding encode_body two_digits four_digits
encode_as LengthType.fixed spec value =
    if spec.numeric
    then bcd_encode (rjust_zeros spec.length value)
    else first_bytes spec.length (latin_1 (ljust spec.length value))
encode_as LengthType.llvar spec value =
    joined (bcd_encode (two_digits (length value))) (encode_body spec.numeric value)
encode_as LengthType.lllvar spec value =
    joined (bcd_encode (four_digits (length value))) (encode_body spec.numeric value)

-- A round of the loop of `build_message`
unfoldable pub encode_field : FieldSpec → Text → Option Bytes
unfolding encode_as
encode_field spec value = encode_as spec.length_type spec value

-- A value, and by how much `pos` moves; a slice past the end is short
unfoldable pub decode_body : Bool → ℕ → Bytes → Text × ℕ
unfolding bcd_decode
decode_body numeric n raw =
    if numeric then (bcd_decode (take (bcd_byte_len n) raw) n, bcd_byte_len n) else (take n raw, n)

abbrev pub prefixed : Bool → ℕ → Bytes → Option ℕ → Option (Text × ℕ)
prefixed numeric size raw none = none
prefixed numeric size raw (some n) =
    let body = decode_body numeric n (drop size raw) in some (body.0, size + body.1)

unfoldable pub decode_as : LengthType → FieldSpec → Bytes → Option (Text × ℕ)
unfolding decode_body int_of rstrip
decode_as LengthType.fixed spec raw =
    if spec.numeric
    then some (decode_body true spec.length raw)
    else if spec.binary
    then some (take spec.length raw, spec.length)
    else some (rstrip (take spec.length raw), spec.length)
decode_as LengthType.llvar spec raw =
    prefixed spec.numeric 1 raw (int_of (bcd_decode (take 1 raw) 2))
decode_as LengthType.lllvar spec raw =
    prefixed spec.numeric 2 raw (int_of (bcd_decode (take 2 raw) 4))

-- A round of the loop of `parse_message`
unfoldable pub decode_field : FieldSpec → Bytes → Option (Text × ℕ)
unfolding decode_as
decode_field spec raw = decode_as spec.length_type spec raw

abbrev pub encode_found : Option FieldSpec → Text → Option Bytes
encode_found none value = none
encode_found (some spec) value = encode_field spec value

-- The loop of `build_message`, over the fields in the order of their numbers
unfoldable pub encode_fields : List (ℕ × Text) → Option Bytes
unfolding encode_field field_spec
encode_fields [] = some []
encode_fields ((de, value) ∷ rest) =
    joined (encode_found (field_spec de) value) (encode_fields rest)

abbrev then_fields : ℕ → Text × ℕ → Option (List (ℕ × Text) × ℕ) → Option (List (ℕ × Text) × ℕ)
then_fields de (value, n) none = none
then_fields de (value, n) (some (fields, m)) = some ((de, value) ∷ fields, n + m)

abbrev pub decode_found : Option FieldSpec → Bytes → Option (Text × ℕ)
decode_found none raw = none
decode_found (some spec) raw = decode_field spec raw

abbrev pub read_next :
    ℕ
    → (Bytes → Option (List (ℕ × Text) × ℕ))
    → Bytes
    → Option (Text × ℕ)
    → Option (List (ℕ × Text) × ℕ)
read_next de others raw none = none
read_next de others raw (some (value, n)) = then_fields de (value, n) (others (drop n raw))

-- The loop of `parse_message`, over the numbers of the fields that the bitmap has
unfoldable pub decode_fields : List ℕ → Bytes → Option (List (ℕ × Text) × ℕ)
unfolding decode_field field_spec
decode_fields [] raw = some ([], 0)
decode_fields (de ∷ rest) raw =
    read_next de (decode_fields rest) raw (decode_found (field_spec de) raw)
