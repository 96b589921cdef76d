-- ===== src/Iso8583/Message.antt =====
-- libs/mfcommon/mfcommon/iso8583/parser.py: `build_message` and `parse_message`.
use microfinance_microservic.Common.{
  ℕ, ◌+◌, Option, none, some, List, [], ◌∷◌, ltb, if◌then◌else◌, take, drop,
}
use microfinance_microservic.Iso8583.Bcd.{Bytes, Text, bcd_encode, bcd_decode}
use microfinance_microservic.Iso8583.Fields.{joined, encode_fields, decode_fields}
use microfinance_microservic.Iso8583.Bitmap.{build_bitmap, read_bitmap}

-- The numbers of the fields of a message: `fields.keys()`
abbrev pub numbers : List (ℕ × Text) → List ℕ
numbers [] = []
numbers ((de, value) ∷ fields) = de ∷ numbers fields

unfoldable pub insert : ℕ → Text → List (ℕ × Text) → List (ℕ × Text)
insert de value [] = (de, value) ∷ []
insert de value ((other, v) ∷ fields) =
    let later = insert de value fields in
    if ltb other de then (other, v) ∷ later else (de, value) ∷ (other, v) ∷ fields

-- The fields in the order of `sorted(fields.keys())`
unfoldable pub in_order : List (ℕ × Text) → List (ℕ × Text)
unfolding insert
in_order [] = []
in_order ((de, value) ∷ fields) = insert de value (in_order fields)

unfoldable pub build_message : Text → List (ℕ × Text) → Option Bytes
unfolding in_order
build_message mti fields =
    joined (bcd_encode mti)
      (joined (build_bitmap (numbers fields)) (encode_fields (in_order fields)))

-- The dictionary that `parse_message` returns
pub record Message : Type 0 where
  pub mti : Text
  pub fields : List (ℕ × Text)

abbrev parsed_fields : Text → ℕ → Option (List (ℕ × Text) × ℕ) → Option (Message × ℕ)
parsed_fields mti size none = none
parsed_fields mti size (some (fields, n)) =
    some ((record { mti = mti; fields = fields }), 2 + size + n)

abbrev parse_present : Text → Bytes → Option (List ℕ × ℕ) → Option (Message × ℕ)
parse_present mti raw none = none
parse_present mti raw (some (present, size)) =
    parsed_fields mti size (decode_fields present (drop size raw))

-- `parse_message`, from the bytes at the offset
unfoldable pub parse_message : Bytes → Option (Message × ℕ)
unfolding bcd_decode read_bitmap decode_fields
parse_message raw =
    parse_present (bcd_decode (take 2 raw) 4) (drop 2 raw) (read_bitmap (drop 2 raw))
