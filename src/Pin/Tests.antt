-- ===== src/Pin/Tests.antt =====
-- A run of the PIN block, and an instance of its theorem, with a derivation that returns the number.
use microfinance_microservic.Common.{◌≡◌, refl, some, [], ◌∷◌, arith}
use microfinance_microservic.Iso8583.Bcd.{Bytes, Text, hex_value}
use microfinance_microservic.Switch.Framing.{to_bytes}
use microfinance_microservic.Pin.{
  encrypt_pin_block, decrypt_pin_block, recover_pin, build_iso0_pin_block, int_16, build_pin_field,
  build_pan_field, hex_number,
}
use microfinance_microservic.Pin.Recovered.{recover_pin-encrypt_pin_block}

-- "1234" and "4111111111111111"
abbrev pin : Text
pin = 49 ∷ 50 ∷ 51 ∷ 52 ∷ []

abbrev pan : Text
pan = 52 ∷ 49 ∷ 49 ∷ 49 ∷ 49 ∷ 49 ∷ 49 ∷ 49 ∷ 49 ∷ 49 ∷ 49 ∷ 49 ∷ 49 ∷ 49 ∷ 49 ∷ 49 ∷ []

recover_pin-encrypt_pin_block_example :
    (ksn : Text) × (block : Bytes) × (encrypt_pin_block (λ ksn. ksn) pin pan 6
      ≡ (some (ksn, block), 7))
    × (recover_pin (decrypt_pin_block (λ ksn. ksn) ksn block) pan ≡ some pin)
recover_pin-encrypt_pin_block_example =
    recover_pin-encrypt_pin_block (λ ksn. ksn) pin pan 6 (omega arith) (omega arith) (omega arith)

block : build_iso0_pin_block pin pan ≡ some (4 ∷ 18 ∷ 37 ∷ 238 ∷ 238 ∷ 238 ∷ 238 ∷ 238 ∷ [])
unfolding build_iso0_pin_block int_16 build_pin_field build_pan_field hex_number hex_value to_bytes
block = refl
