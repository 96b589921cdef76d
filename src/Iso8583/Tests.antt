-- ===== src/Iso8583/Tests.antt =====
-- Runs of the codecs, and instances of their theorems.
use microfinance_microservic.Common.{ℕ, ◌≡◌, ◌++◌, refl, some, List, [], ◌∷◌, length, arith}
use microfinance_microservic.Iso8583.Bcd.{Bytes, Text, bcd_encode, bcd_decode, fromhex, hex_value}
use microfinance_microservic.Iso8583.Catalog.{field_spec, find_spec, field_specs}
use microfinance_microservic.Iso8583.Fields.{rstrip}
use microfinance_microservic.Iso8583.BcdRoundtrip.{bcd_decode-bcd_encode}
use microfinance_microservic.Iso8583.Message.{in_order, insert, build_message, parse_message}
use microfinance_microservic.Iso8583.MessageRoundtrip.{parse_message-build_message}

-- "123", with a filler
odd : bcd_encode (49 ∷ 50 ∷ 51 ∷ []) ≡ some (18 ∷ 63 ∷ [])
unfolding bcd_encode fromhex hex_value
odd = refl

bcd_decode-bcd_encode_example :
    (bytes : Bytes) × (bcd_encode (49 ∷ 50 ∷ 51 ∷ []) ≡ some bytes)
    × (bcd_decode bytes 3 ≡ 49 ∷ 50 ∷ 51 ∷ [])
    × (length bytes ≡ 2)
bcd_decode-bcd_encode_example = bcd_decode-bcd_encode (49 ∷ 50 ∷ 51 ∷ []) (omega arith)

-- A card number of thirteen digits, a response code, and a PIN block that ends in a space.
abbrev fields : List (ℕ × Text)
fields =
    (2, 52 ∷ 49 ∷ 49 ∷ 49 ∷ 49 ∷ 49 ∷ 49 ∷ 49 ∷ 49 ∷ 49 ∷ 49 ∷ 49 ∷ 49 ∷ [])
    ∷ (39, 48 ∷ 48 ∷ [])
    ∷ (52, 1 ∷ 200 ∷ 3 ∷ 4 ∷ 5 ∷ 6 ∷ 7 ∷ 32 ∷ [])
    ∷ []

-- The dictionary of a message, in the order in which it was filled, with a field behind the first
-- 64.
abbrev dictionary : List (ℕ × Text)
dictionary = (70, 48 ∷ 48 ∷ 49 ∷ []) ∷ fields

abbrev sorted : List (ℕ × Text)
sorted = fields ++ (70, 48 ∷ 48 ∷ 49 ∷ []) ∷ []

parse_message-build_message_example :
    (bytes : Bytes) × (build_message (48 ∷ 50 ∷ 48 ∷ 48 ∷ []) dictionary ≡ some bytes)
    × (parse_message (bytes ++ 255 ∷ [])
        ≡ some ((record { mti = 48 ∷ 50 ∷ 48 ∷ 48 ∷ []; fields = sorted }), length bytes))
unfolding field_spec find_spec field_specs rstrip in_order insert
parse_message-build_message_example =
    parse_message-build_message (48 ∷ 50 ∷ 48 ∷ 48 ∷ []) dictionary (255 ∷ []) (omega arith) refl
      (
        (omega arith, refl),
        (omega arith, ((omega arith, omega arith, refl), ((omega arith, refl), tt))),
      )
      (refl, (refl, (refl, (refl, tt))))
