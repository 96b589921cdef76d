-- ===== src/Pin.antt =====
-- libs/mfcommon/mfcommon/security: the PIN block of ISO 9564 format 0 (pin_block.py) and the mock HSM
-- (mock_hsm.py), whose key derivation, an HMAC, is a parameter. What the source raises is `none`.
pub mod Xor
mod Places
pub mod Recovered
mod Tests
use Prim.Native.Nat.{bit_xor}
use microfinance_microservic.Common.{
  ℕ, zero, suc, ◌+◌, ◌-◌, ◌*◌, ◌/◌, ◌%◌, Bool, ◌&&◌, Option, none, some, List, [], ◌∷◌, ◌++◌, ltb,
  leb, nat_eq, if◌then◌else◌, length, take, drop, replicate,
}
use microfinance_microservic.Iso8583.Bcd.{Bytes, Text, hex_value, hex_digit}
use microfinance_microservic.Iso8583.Fields.{decimal}
use microfinance_microservic.Switch.Framing.{to_bytes, from_bytes}

-- f"{n:X}", by fuel: the number itself is enough
unfoldable pub hex_number : ℕ → ℕ → Text
hex_number zero n = hex_digit (n % 16) ∷ []
hex_number (suc fuel) n =
    let high = hex_number fuel (n / 16) in
    if ltb n 16 then hex_digit n ∷ [] else high ++ hex_digit (n % 16) ∷ []

-- `field.ljust(16, "F")`
abbrev pub ljust_f : Text → Text
ljust_f field = field ++ replicate (16 - length field) 70

unfoldable pub build_pin_field : Text → Text
unfolding hex_number
build_pin_field pin = ljust_f (48 ∷ hex_number (length pin) (length pin) ++ pin)

-- `pan[-13:-1]`
abbrev pub pan_digits : Text → Text
pan_digits pan = let tail = drop (length pan - 13) pan in take (length tail - 1) tail

abbrev rjust_0 : Text → Text
rjust_0 field = replicate (16 - length field) 48 ++ field

-- `field.rjust(16, "0")[-16:]`
unfoldable pub build_pan_field : Text → Text
build_pan_field pan =
    let field = rjust_0 (48 ∷ 48 ∷ 48 ∷ 48 ∷ pan_digits pan) in drop (length field - 16) field

abbrev pub plus_digit : ℕ → Option ℕ → Option ℕ
plus_digit n none = none
plus_digit n (some v) = some (16 * n + v)

abbrev pub int_after : Option ℕ → Text → Option ℕ
int_after none s = none
int_after (some n) [] = some n
int_after (some n) (c ∷ s) = int_after (plus_digit n (hex_value c)) s

-- `int(s, 16)` of a text of hexadecimal digits
unfoldable pub int_16 : Text → Option ℕ
unfolding hex_value
int_16 [] = none
int_16 (c ∷ s) = int_after (some 0) (c ∷ s)

abbrev pub block_of : Option ℕ → Option ℕ → Option Bytes
block_of (some a) (some b) = to_bytes 8 (bit_xor a b)
block_of _ _ = none

unfoldable pub build_iso0_pin_block : Text → Text → Option Bytes
unfolding int_16 build_pin_field build_pan_field to_bytes
build_iso0_pin_block pin pan =
    block_of (int_16 (build_pin_field pin)) (int_16 (build_pan_field pan))

-- The hexadecimal digits of a number, as many as given
unfoldable pub hex_places : ℕ → ℕ → Text
hex_places zero n = []
hex_places (suc k) n = hex_places k (n / 16) ++ hex_digit (n % 16) ∷ []

-- f"{n:016X}" of a number of 64 bits; of a greater one it is longer
unfoldable pub hex_016 : ℕ → Text
unfolding hex_places hex_number
hex_016 n = if ltb n 18446744073709551616 then hex_places 16 n else hex_number n n

abbrev pub of_length : Text → Option ℕ → Option Text
of_length rest none = none
of_length rest (some n) = some (take n rest)

-- `pin_field[2:2 + int(pin_field[1], 16)]`
abbrev pub pin_of : Text → Option Text
unfolding hex_value
pin_of [] = none
pin_of (c ∷ []) = none
pin_of (c ∷ d ∷ rest) = of_length rest (hex_value d)

abbrev pub recovered : Bytes → Option ℕ → Option Text
recovered block none = none
recovered block (some pan_int) = pin_of (hex_016 (bit_xor (from_bytes block) pan_int))

unfoldable pub recover_pin : Bytes → Text → Option Text
unfolding int_16 build_pan_field hex_016 from_bytes hex_value
recover_pin block pan = recovered block (int_16 (build_pan_field pan))

-- The decimal digits of a number, as many as given
unfoldable pub places : ℕ → ℕ → Text
places zero n = []
places (suc k) n = places k (n / 10) ++ (48 + n % 10) ∷ []

-- f"{n:010d}"
unfoldable pub ksn_of : ℕ → Text
unfolding places decimal
ksn_of n = if ltb n 10000000000 then places 10 n else decimal n n

abbrev pub key_at : ℕ → Bytes → ℕ
key_at i [] = 0
key_at zero (k ∷ key) = k
key_at (suc i) (k ∷ key) = key_at i key

-- `_xor_stream`, from the index `i`
unfoldable pub xor_stream : ℕ → Bytes → Bytes → Bytes
xor_stream i [] key = []
xor_stream i (b ∷ bytes) key =
    bit_xor b (key_at (i % length key) key) ∷ xor_stream (suc i) bytes key

-- `derive` is `_derive_transaction_key` with the base key; the state is `_ksn_counter`.
module _ (derive : Text → Bytes) where
  abbrev pub encrypted : ℕ → Option Bytes → Option (Text × Bytes) × ℕ
  encrypted counter none = (none, counter)
  encrypted counter (some block) =
      (some (ksn_of counter, xor_stream 0 block (derive (ksn_of counter))), counter)

  unfoldable pub encrypt_pin_block : Text → Text → ℕ → Option (Text × Bytes) × ℕ
  unfolding build_iso0_pin_block ksn_of xor_stream
  encrypt_pin_block pin pan counter = encrypted (suc counter) (build_iso0_pin_block pin pan)

  unfoldable pub decrypt_pin_block : Text → Bytes → Bytes
  unfolding xor_stream
  decrypt_pin_block ksn block = xor_stream 0 block (derive ksn)
