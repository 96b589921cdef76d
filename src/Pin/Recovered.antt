-- ===== src/Pin/Recovered.antt =====
-- A PIN is recovered from its block, and from what the HSM makes of it.
use Prim.Native.Nat.{bit_xor}
use microfinance_microservic.Common.{
  ℕ, suc, ◌+◌, ◌-◌, ◌%◌, ◌≤◌, ◌<◌, ◌≡◌, refl, ap, ◌∙◌, some, [], ◌∷◌, ◌++◌, length, length-append,
  drop, take-append, replicate, lt→ltb, All, All-append, arith,
}
use microfinance_microservic.Iso8583.Bcd.{Bytes, Text, hex_value, hex_digit}
use microfinance_microservic.Iso8583.BcdRoundtrip.{IsDecimal}
use microfinance_microservic.Switch.Framing.{to_bytes, from_bytes, digits_of}
use microfinance_microservic.Switch.FramingRoundtrip.{from_after-digits_of}
use microfinance_microservic.Pin.{
  hex_number, build_pin_field, pan_digits, build_pan_field, int_16, build_iso0_pin_block,
  hex_places, hex_016, of_length, pin_of, recover_pin, xor_stream, key_at, ksn_of,
  encrypt_pin_block, decrypt_pin_block,
}
use microfinance_microservic.Pin.Xor.{xor_twice, xor_bound}
use microfinance_microservic.Pin.Places.{
  IsHex, hex_value-hex_digit, int_after_lem, decimals-IsHex, copies-IsHex, length-copies,
  take-IsDecimal, drop-IsDecimal, length-take, length-drop,
}

-- A field of a block: sixteen hexadecimal digits.
abbrev IsField : Text → Type 0
IsField s = All IsHex s × (length s ≡ 16)

-- Such a field as a number, and back.
field_number :
    (s : Text)
    → IsField s
    → (m : ℕ) × (int_16 s ≡ some m) × (m < 18446744073709551616) × (hex_places 16 m ≡ s)
unfolding int_16 hex_places
field_number [] h = absurd (omega (arith, h.1))
field_number (c ∷ s) h =
    let (m, read, bound, places) = int_after_lem (c ∷ s) 0 0 h.0 (omega arith) in
    (m, read, rw h.1 at bound, rw h.1 at places)

abbrev pin_field : Text → Text
pin_field pin = 48 ∷ hex_digit (length pin) ∷ (pin ++ replicate (14 - length pin) 70)

fill_count : (n : ℕ) → 16 - suc (suc n) ≡ 14 - n
fill_count n = omega arith

build_pin_field-pin_field : (pin : Text) → length pin ≤ 14 → build_pin_field pin ≡ pin_field pin
unfolding build_pin_field hex_number
build_pin_field-pin_field [] h = refl
build_pin_field-pin_field (c ∷ pin) h =
    rw (lt→ltb (suc (length pin)) 16 (omega (arith, h)), fill_count (suc (length pin))) refl

pin_field-IsField : (pin : Text) → All IsDecimal pin → length pin ≤ 14 → IsField (pin_field pin)
pin_field-IsField pin h small = (
  (
    (0, omega arith, refl),
    (
      (length pin, omega (arith, small), refl),
      All-append IsHex pin (replicate (14 - length pin) 70) (decimals-IsHex pin h)
          (copies-IsHex (14 - length pin) 70 (15, omega arith, refl)),
    ),
  ),
  omega (
    arith,
    length-append pin (replicate (14 - length pin) 70),
    length-copies (14 - length pin) 70,
    small,
  ),
)

pan_digits-IsDecimal : (pan : Text) → All IsDecimal pan → All IsDecimal (pan_digits pan)
pan_digits-IsDecimal pan h =
    take-IsDecimal (length (drop (length pan - 13) pan) - 1) (drop (length pan - 13) pan)
      (drop-IsDecimal (length pan - 13) pan h)

length-pan_digits : (pan : Text) → length (pan_digits pan) ≤ 12
length-pan_digits pan = omega (
  arith,
  length-take (length (drop (length pan - 13) pan) - 1) (drop (length pan - 13) pan),
  length-drop (length pan - 13) pan,
)

-- The field before its last sixteen digits are taken, which are all of it.
abbrev pan_field : Text → Text
pan_field digits = replicate (16 - (4 + length digits)) 48 ++ 48 ∷ 48 ∷ 48 ∷ 48 ∷ digits

pan_field-IsField :
    (digits : Text) → All IsDecimal digits → length digits ≤ 12 → IsField (pan_field digits)
pan_field-IsField digits h small =
    let zero_hex : IsHex 48 = (0, omega arith, refl) in
    (
      All-append IsHex (replicate (16 - (4 + length digits)) 48) (48 ∷ 48 ∷ 48 ∷ 48 ∷ digits)
          (copies-IsHex (16 - (4 + length digits)) 48 zero_hex)
          (zero_hex, (zero_hex, (zero_hex, (zero_hex, decimals-IsHex digits h)))),
      omega (
        arith,
        length-append (replicate (16 - (4 + length digits)) 48) (48 ∷ 48 ∷ 48 ∷ 48 ∷ digits),
        length-copies (16 - (4 + length digits)) 48,
        small,
      ),
    )

none_dropped : (s : Text) → length s ≡ 16 → drop (length s - 16) s ≡ s
none_dropped s h = ap (λ n. drop (n - 16) s) h

four_more : (n : ℕ) → 16 - suc (suc (suc (suc n))) ≡ 16 - (4 + n)
four_more n = omega arith

build_pan_field-IsField : (pan : Text) → All IsDecimal pan → IsField (build_pan_field pan)
unfolding build_pan_field
build_pan_field-IsField pan h =
    let field =
      pan_field-IsField (pan_digits pan) (pan_digits-IsDecimal pan h) (length-pan_digits pan) in
    rw (four_more (length (pan_digits pan)), none_dropped (pan_field (pan_digits pan)) field.1)
      field

-- The exclusive or of two fields, as the eight bytes of a block.
block_lem :
    (a b : ℕ)
    → a < 18446744073709551616
    → b < 18446744073709551616
    → (block : Bytes) × (to_bytes 8 (bit_xor a b) ≡ some block) × (from_bytes block ≡ bit_xor a b)
unfolding to_bytes from_bytes
block_lem a b ha hb =
    let bound : bit_xor a b < 18446744073709551616 = xor_bound 64 a b ha hb in
    (
      digits_of 8 (bit_xor a b),
      rw (lt→ltb (bit_xor a b) 18446744073709551616 bound) refl,
      from_after-digits_of 8 (bit_xor a b) bound,
    )

hex_016-field : (m : ℕ) (s : Text) → m < 18446744073709551616 → hex_places 16 m ≡ s → hex_016 m ≡ s
unfolding hex_016
hex_016-field m s lt places = rw (lt→ltb m 18446744073709551616 lt) places

pin_of-pin_field : (pin : Text) → length pin ≤ 14 → pin_of (pin_field pin) ≡ some pin
unfolding pin_of hex_value
pin_of-pin_field pin small =
    ap (of_length (pin ++ replicate (14 - length pin) 70))
      (hex_value-hex_digit (length pin) (omega (arith, small)))
    ∙ ap some (take-append pin (replicate (14 - length pin) 70))

recover_pin-build :
    (pin pan : Text)
    → All IsDecimal pin
    → length pin ≤ 14
    → All IsDecimal pan
    → (block : Bytes) × (build_iso0_pin_block pin pan ≡ some block)
      × (recover_pin block pan ≡ some pin)
unfolding build_iso0_pin_block recover_pin
recover_pin-build pin pan hp small ha =
    let (a, a_read, a_bound, a_places) =
      field_number (pin_field pin) (pin_field-IsField pin hp small) in
    let (b, b_read, b_bound, b_places) =
      field_number (build_pan_field pan) (build_pan_field-IsField pan ha) in
    let (block, made, number) = block_lem a b a_bound b_bound in
    (
      block,
      rw (build_pin_field-pin_field pin small, a_read, b_read) made,
      rw (b_read, number, xor_twice a b, hex_016-field a (pin_field pin) a_bound a_places)
          (pin_of-pin_field pin small),
    )

xor_stream_twice : (i : ℕ) (bytes key : Bytes) → xor_stream i (xor_stream i bytes key) key ≡ bytes
unfolding xor_stream
xor_stream_twice i [] key = refl
xor_stream_twice i (b ∷ bytes) key =
    rw (xor_twice b (key_at (i % length key) key), xor_stream_twice (suc i) bytes key) refl

-- A PIN of up to fourteen digits, for a card number of digits, is encrypted; with the serial number
-- that goes with the block and the same derivation of keys it is decrypted, and recovered for the
-- same card. The counter of serial numbers moves on by one.
pub recover_pin-encrypt_pin_block :
    (derive : Text → Bytes) (pin pan : Text) (counter : ℕ)
    → All IsDecimal pin
    → length pin ≤ 14
    → All IsDecimal pan
    → (ksn : Text) × (block : Bytes) × (encrypt_pin_block derive pin pan counter
        ≡ (some (ksn, block), suc counter))
      × (recover_pin (decrypt_pin_block derive ksn block) pan ≡ some pin)
unfolding encrypt_pin_block decrypt_pin_block
recover_pin-encrypt_pin_block derive pin pan counter hp small ha =
    let (block, made, found) = recover_pin-build pin pan hp small ha in
    let ksn : Text = ksn_of (suc counter) in
    (
      ksn,
      xor_stream 0 block (derive ksn),
      rw made refl,
      rw (xor_stream_twice 0 block (derive ksn)) found,
    )
