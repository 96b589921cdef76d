-- ===== src/Iso8583/FileTests.antt =====
-- A file of two messages, and instances of the theorems on files.
use microfinance_microservic.Common.{ℕ, ◌≡◌, refl, true, List, [], ◌∷◌, arith}
use microfinance_microservic.Iso8583.Bcd.{Text, bcd_encode, fromhex, hex_value}
use microfinance_microservic.Iso8583.Catalog.{field_spec, find_spec, field_specs}
use microfinance_microservic.Iso8583.Fields.{
  rstrip, latin_1, decimal, two_digits, four_digits, encode_body, encode_as, encode_field,
  encode_fields,
}
use microfinance_microservic.Iso8583.Bitmap.{or_byte, set_bit, set_bits, any_above, build_bitmap}
use microfinance_microservic.Iso8583.Message.{in_order, insert, build_message}
use microfinance_microservic.Switch.Framing.{to_bytes}
use microfinance_microservic.Iso8583.Files.{
  finished, write_messages_to_file, iter_messages_from_file,
}
use microfinance_microservic.Iso8583.FilesRoundtrip.{iter_messages_from_file-write_messages_to_file}

abbrev mti : Text
mti = 48 ∷ 50 ∷ 48 ∷ 48 ∷ []

abbrev two_messages : List (Text × List (ℕ × Text))
two_messages =
    (mti, (39, 48 ∷ 48 ∷ []) ∷ (11, 48 ∷ 48 ∷ 48 ∷ 48 ∷ 48 ∷ 49 ∷ []) ∷ [])
    ∷ (mti, (2, 52 ∷ 49 ∷ 49 ∷ 49 ∷ []) ∷ [])
    ∷ []

written : (write_messages_to_file true 2 two_messages).1 ≡ finished
unfolding bcd_encode fromhex hex_value field_spec find_spec field_specs rstrip latin_1 decimal
    two_digits four_digits encode_body encode_as encode_field encode_fields or_byte set_bit set_bits
    any_above build_bitmap in_order insert build_message to_bytes write_messages_to_file
written = refl

iter_messages_from_file-write_messages_to_file_example :
    iter_messages_from_file true 2 (write_messages_to_file true 2 two_messages).0 ≡ (
      record {
        mti = mti;
        fields = (11, 48 ∷ 48 ∷ 48 ∷ 48 ∷ 48 ∷ 49 ∷ []) ∷ (39, 48 ∷ 48 ∷ []) ∷ [];
      }
          ∷ record { mti = mti; fields = (2, 52 ∷ 49 ∷ 49 ∷ 49 ∷ []) ∷ [] }
          ∷ [],
      finished,
    )
unfolding field_spec find_spec field_specs rstrip in_order insert
iter_messages_from_file-write_messages_to_file_example =
    iter_messages_from_file-write_messages_to_file 2 two_messages (omega arith)
      (
        (
          omega arith,
          refl,
          ((omega arith, omega arith, refl), ((omega arith, refl), tt)),
          (refl, (refl, tt)),
        ),
        ((omega arith, refl, ((omega arith, omega arith), tt), (refl, tt)), tt),
      )
      written
