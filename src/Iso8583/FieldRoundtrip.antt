-- ===== src/Iso8583/FieldRoundtrip.antt =====
-- The fields of a message survive the loops of `build_message` and `parse_message`.
use microfinance_microservic.Common.{
  ℕ, zero, suc, ◌+◌, ◌-◌, ◌/◌, ◌%◌, ◌≤◌, ◌<◌, ◌≡◌, refl, sym, Bool, true, false, Option, none, some,
  List, [], ◌∷◌, ◌++◌, length, take, replicate, length-append, append_assoc, append-nil, All-append,
  All, take-append, drop-append, take_all, take_exact, arith,
}
use microfinance_microservic.Iso8583.Bcd.{Bytes, Text, bcd_encode, bcd_decode, bcd_byte_len}
use microfinance_microservic.Iso8583.Catalog.{LengthType, FieldSpec, field_spec}
use microfinance_microservic.Iso8583.Fields.{
  prefixed, rjust_zeros, ljust, rstrip, latin_1, two_digits, four_digits, int_of, joined,
  encode_body, encode_as, encode_field, decode_body, decode_as, decode_field, encode_fields,
  decode_fields, encode_found, decode_found,
}
use microfinance_microservic.Iso8583.Message.{numbers}
use microfinance_microservic.Iso8583.BcdRoundtrip.{IsDecimal, bcd_decode-bcd_encode}

abbrev pub IsByte : ℕ → Type 0
IsByte c = c < 256

latin_1-id : (s : Text) → All IsByte s → latin_1 s ≡ some s
unfolding latin_1
latin_1-id [] h = refl
latin_1-id (c ∷ s) h = grind (arith, latin_1-id s h.1, h.0)

rstrip-append : (s : Text) (n : ℕ) → rstrip (s ++ replicate n 32) ≡ rstrip s
unfolding rstrip
rstrip-append [] zero = refl
rstrip-append [] (suc n) = grind (arith, rstrip-append [] n)
rstrip-append (c ∷ s) n = rw (rstrip-append s n)

-- A value that a body of decimal digits, or of bytes, can hold.
abbrev pub IsBody : Bool → Text → Type 0
IsBody true value = All IsDecimal value
IsBody false value = All IsByte value

-- A body is written, and read back before whatever follows it.
abbrev Survives : Option Bytes → (Bytes → Option (Text × ℕ)) → Text → Bytes → Type 0
Survives written read value rest =
    (bytes : Bytes) × (written ≡ some bytes) × (read (bytes ++ rest) ≡ some (value, length bytes))

body_lem :
    (numeric : Bool) (value : Text) (rest : Bytes)
    → IsBody numeric value
    → Survives
        (encode_body numeric value)
        (λ raw. some (decode_body numeric (length value) raw))
        value
        rest
unfolding encode_body decode_body
body_lem true value rest h =
    let (bytes, written, read, size) = bcd_decode-bcd_encode value h in
    (bytes, written, rw (sym size, take-append bytes rest, read))
body_lem false value rest h = (value, latin_1-id value h, rw (take-append value rest))

-- What a field of a kind can hold: as many digits, or binary bytes, as a fixed length; text without
-- white space at its end, up to it; or as many as the digits of a length prefix can say.
abbrev pub Fits : LengthType → ℕ → Bool → Bool → Text → Type 0
Fits LengthType.fixed n true binary value = All IsDecimal value × (length value ≡ n)
Fits LengthType.fixed n false true value = All IsByte value × (length value ≡ n)
Fits LengthType.fixed n false false value =
    All IsByte value × (length value ≤ n) × (rstrip value ≡ value)
Fits LengthType.llvar n numeric binary value = IsBody numeric value × (length value ≤ 99)
Fits LengthType.lllvar n numeric binary value = IsBody numeric value × (length value ≤ 9999)

abbrev pub FitsSpec : FieldSpec → Text → Type 0
FitsSpec spec value = Fits spec.length_type spec.length spec.numeric spec.binary value

two_digits_eq : (n : ℕ) → n ≤ 99 → two_digits n ≡ (48 + n / 10) ∷ (48 + n % 10) ∷ []
unfolding two_digits
two_digits_eq n h = ground arith

four_digits_eq :
    (n : ℕ)
    → n ≤ 9999
    → four_digits n
      ≡ (48 + n / 1000) ∷ (48 + n / 100 % 10) ∷ (48 + n / 10 % 10) ∷ (48 + n % 10) ∷ []
unfolding four_digits
four_digits_eq n h = ground arith

int_of_two : (n : ℕ) → n ≤ 99 → int_of ((48 + n / 10) ∷ (48 + n % 10) ∷ []) ≡ some n
unfolding int_of
int_of_two n h = ground arith

int_of_four :
    (n : ℕ)
    → n ≤ 9999
    → int_of ((48 + n / 1000) ∷ (48 + n / 100 % 10) ∷ (48 + n / 10 % 10) ∷ (48 + n % 10) ∷ [])
      ≡ some n
unfolding int_of
int_of_four n h = ground arith

-- A length prefix of decimal digits, before its body.
prefix_lem :
    (numeric : Bool) (ds value : Text) (rest : Bytes)
    → All IsDecimal ds
    → int_of ds ≡ some (length value)
    → IsBody numeric value
    → Survives
        (joined (bcd_encode ds) (encode_body numeric value))
        (λ raw.
          prefixed numeric
            (bcd_byte_len (length ds))
            raw
            (int_of (bcd_decode (take (bcd_byte_len (length ds)) raw) (length ds))))
        value
        rest
prefix_lem numeric ds value rest hd count h =
    let (front, written, read, size) = bcd_decode-bcd_encode ds hd in
    let (bytes, wrote, reads) = body_lem numeric value rest h in
    (
      front ++ bytes,
      rw (written, wrote),
      rw
          (
            sym size,
            append_assoc front bytes rest,
            take-append front (bytes ++ rest),
            read,
            count,
            drop-append front (bytes ++ rest),
          )
          (grind (arith, reads, length-append front bytes)),
    )

rjust_full : (n : ℕ) (value : Text) → length value ≡ n → rjust_zeros n value ≡ value
rjust_full n value h = grind (arith, h)

ljust_full : (n : ℕ) (value : Text) → length value ≡ n → ljust n value ≡ value
ljust_full n value h = grind (arith, h, append-nil value)

length-replicate : (n c : ℕ) → length (replicate n c) ≡ n
length-replicate zero c = refl
length-replicate (suc n) c = omega (arith, length-replicate n c)

spaces-IsByte : (n : ℕ) → All IsByte (replicate n 32)
spaces-IsByte zero = tt
spaces-IsByte (suc n) = (omega arith, spaces-IsByte n)

length-ljust : (n : ℕ) (value : Text) → length value ≤ n → length (ljust n value) ≡ n
length-ljust n value h = omega (
  arith,
  length-append value (replicate (n - length value) 32),
  length-replicate (n - length value) 32,
)

field_lem :
    (t : LengthType) (n : ℕ) (numeric binary : Bool) (value : Text) (rest : Bytes)
    → Fits t n numeric binary value
    → Survives
        (encode_as t
          (record { length_type = t; length = n; numeric = numeric; binary = binary })
          value)
        (decode_as t (record { length_type = t; length = n; numeric = numeric; binary = binary }))
        value
        rest
unfolding encode_as decode_as encode_body decode_body
field_lem LengthType.fixed n true binary value rest h =
    let (bytes, written, read) = body_lem true value rest h.0 in
    (bytes, rw (rjust_full n value h.1) written, rw (sym h.1) read)
field_lem LengthType.fixed n false true value rest h = (
  value,
  rw (ljust_full n value h.1, latin_1-id value h.0, take_exact n value h.1),
  rw (take_all n value rest h.1, h.1),
)
field_lem LengthType.fixed n false false value rest h =
    let size = length-ljust n value h.1 in
    let bytes =
      All-append IsByte value (replicate (n - length value) 32) h.0
        (spaces-IsByte (n - length value)) in
    (
      ljust n value,
      rw (latin_1-id (ljust n value) bytes, take_exact n (ljust n value) size),
      rw (take_all n (ljust n value) rest size, size, rstrip-append value (n - length value), h.2),
    )
field_lem LengthType.llvar n numeric binary value rest h = rw (two_digits_eq (length value) h.1) (
    prefix_lem numeric ((48 + length value / 10) ∷ (48 + length value % 10) ∷ []) value rest
      (omega arith) (int_of_two (length value) h.1) h.0)
field_lem LengthType.lllvar n numeric binary value rest h = rw (four_digits_eq (length value) h.1) (
    prefix_lem numeric
      ((48 + length value / 1000)
        ∷ (48 + length value / 100 % 10)
        ∷ (48 + length value / 10 % 10)
        ∷ (48 + length value % 10)
        ∷ [])
      value rest (omega arith) (int_of_four (length value) h.1) h.0)

-- A field of the catalog can hold the value.
abbrev pub FitsFound : Option FieldSpec → Text → Type 0
FitsFound none value = ⊥
FitsFound (some spec) value = FitsSpec spec value

abbrev pub FitsField : ℕ × Text → Type 0
FitsField (de, value) = FitsFound (field_spec de) value

found_lem :
    (o : Option FieldSpec) (value : Text) (rest : Bytes)
    → FitsFound o value
    → Survives (encode_found o value) (decode_found o) value rest
unfolding encode_field decode_field
found_lem none value rest h = absurd h
found_lem (some spec) value rest h =
    field_lem spec.length_type spec.length spec.numeric spec.binary value rest h

-- Fields of the catalog whose values they can hold are built, one after another, and parsed again
-- from the bytes and whatever follows: the same values, and as many bytes as were built.
pub decode_fields-encode_fields :
    (fields : List (ℕ × Text)) (rest : Bytes)
    → All FitsField fields
    → (bytes : Bytes) × (encode_fields fields ≡ some bytes)
      × (decode_fields (numbers fields) (bytes ++ rest) ≡ some (fields, length bytes))
unfolding encode_fields decode_fields
decode_fields-encode_fields [] rest h = ([], refl, refl)
decode_fields-encode_fields ((de, value) ∷ fields) rest h =
    let (later, built, parsed) = decode_fields-encode_fields fields rest h.1 in
    let (bytes, written, read) = found_lem (field_spec de) value (later ++ rest) h.0 in
    (
      bytes ++ later,
      rw (written, built),
      rw (
        append_assoc bytes later rest,
        read,
        drop-append bytes (later ++ rest),
        parsed,
        length-append bytes later,
      ),
    )
