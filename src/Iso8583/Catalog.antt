-- ===== src/Iso8583/Catalog.antt =====
-- libs/mfcommon/mfcommon/iso8583/parser.py: `FieldSpec` and the catalog `FIELD_SPECS`.
use microfinance_microservic.Common.{
  ℕ, Bool, true, false, Option, none, some, List, [], ◌∷◌, HasEq-nat, ◌==◌, if◌then◌else◌,
}

pub data LengthType : Type 0 where
  fixed llvar lllvar : LengthType

-- `numeric` is packed decimal; `binary` is never trimmed
pub record FieldSpec : Type 0 where
  pub length_type : LengthType
  pub length : ℕ
  pub numeric : Bool
  pub binary : Bool

-- An item of the catalog: digits, text or binary content
abbrev digits : ℕ → LengthType → ℕ → ℕ × FieldSpec
digits de t n = (de, record { length_type = t; length = n; numeric = true; binary = false })

abbrev text : ℕ → LengthType → ℕ → ℕ × FieldSpec
text de t n = (de, record { length_type = t; length = n; numeric = false; binary = false })

abbrev content : ℕ → LengthType → ℕ → ℕ × FieldSpec
content de t n = (de, record { length_type = t; length = n; numeric = false; binary = true })

unfoldable pub field_specs : List (ℕ × FieldSpec)
field_specs =
    digits 2 LengthType.llvar 19
    ∷ digits 3 LengthType.fixed 6
    ∷ digits 4 LengthType.fixed 12
    ∷ digits 5 LengthType.fixed 12
    ∷ digits 6 LengthType.fixed 12
    ∷ digits 7 LengthType.fixed 10
    ∷ digits 8 LengthType.fixed 8
    ∷ digits 9 LengthType.fixed 8
    ∷ digits 10 LengthType.fixed 8
    ∷ digits 11 LengthType.fixed 6
    ∷ digits 12 LengthType.fixed 6
    ∷ digits 13 LengthType.fixed 4
    ∷ digits 14 LengthType.fixed 4
    ∷ digits 15 LengthType.fixed 4
    ∷ digits 16 LengthType.fixed 4
    ∷ digits 17 LengthType.fixed 4
    ∷ digits 18 LengthType.fixed 4
    ∷ digits 19 LengthType.fixed 3
    ∷ digits 20 LengthType.fixed 3
    ∷ digits 21 LengthType.fixed 3
    ∷ digits 22 LengthType.fixed 3
    ∷ digits 23 LengthType.fixed 3
    ∷ digits 24 LengthType.fixed 3
    ∷ digits 25 LengthType.fixed 2
    ∷ digits 26 LengthType.fixed 2
    ∷ digits 27 LengthType.fixed 1
    ∷ text 28 LengthType.fixed 9
    ∷ text 29 LengthType.fixed 9
    ∷ text 30 LengthType.fixed 9
    ∷ text 31 LengthType.fixed 9
    ∷ digits 32 LengthType.llvar 11
    ∷ digits 33 LengthType.llvar 11
    ∷ digits 34 LengthType.llvar 28
    ∷ text 35 LengthType.llvar 37
    ∷ text 36 LengthType.lllvar 104
    ∷ text 37 LengthType.fixed 12
    ∷ text 38 LengthType.fixed 6
    ∷ text 39 LengthType.fixed 2
    ∷ text 40 LengthType.fixed 3
    ∷ text 41 LengthType.fixed 8
    ∷ text 42 LengthType.fixed 15
    ∷ text 43 LengthType.fixed 40
    ∷ content 44 LengthType.llvar 25
    ∷ text 45 LengthType.llvar 76
    ∷ text 46 LengthType.lllvar 999
    ∷ text 47 LengthType.lllvar 999
    ∷ text 48 LengthType.lllvar 999
    ∷ digits 49 LengthType.fixed 3
    ∷ digits 50 LengthType.fixed 3
    ∷ digits 51 LengthType.fixed 3
    ∷ content 52 LengthType.fixed 8
    ∷ digits 53 LengthType.fixed 16
    ∷ text 54 LengthType.lllvar 120
    ∷ text 55 LengthType.lllvar 255
    ∷ content 56 LengthType.lllvar 999
    ∷ text 57 LengthType.lllvar 999
    ∷ text 58 LengthType.lllvar 999
    ∷ text 59 LengthType.lllvar 999
    ∷ text 60 LengthType.lllvar 999
    ∷ text 61 LengthType.lllvar 999
    ∷ text 62 LengthType.lllvar 999
    ∷ text 63 LengthType.lllvar 999
    ∷ content 64 LengthType.fixed 8
    ∷ digits 66 LengthType.fixed 1
    ∷ digits 67 LengthType.fixed 2
    ∷ digits 68 LengthType.fixed 3
    ∷ digits 69 LengthType.fixed 3
    ∷ digits 70 LengthType.fixed 3
    ∷ digits 71 LengthType.fixed 4
    ∷ digits 72 LengthType.fixed 4
    ∷ digits 73 LengthType.fixed 6
    ∷ digits 74 LengthType.fixed 10
    ∷ digits 75 LengthType.fixed 10
    ∷ digits 76 LengthType.fixed 10
    ∷ digits 77 LengthType.fixed 10
    ∷ digits 78 LengthType.fixed 10
    ∷ digits 79 LengthType.fixed 10
    ∷ digits 80 LengthType.fixed 10
    ∷ digits 81 LengthType.fixed 10
    ∷ digits 82 LengthType.fixed 12
    ∷ digits 83 LengthType.fixed 12
    ∷ digits 84 LengthType.fixed 12
    ∷ digits 85 LengthType.fixed 12
    ∷ digits 86 LengthType.fixed 15
    ∷ digits 87 LengthType.fixed 15
    ∷ digits 88 LengthType.fixed 15
    ∷ digits 89 LengthType.fixed 15
    ∷ digits 90 LengthType.fixed 42
    ∷ text 91 LengthType.fixed 1
    ∷ digits 92 LengthType.fixed 2
    ∷ digits 93 LengthType.fixed 5
    ∷ text 94 LengthType.fixed 7
    ∷ text 95 LengthType.fixed 42
    ∷ content 96 LengthType.fixed 8
    ∷ text 97 LengthType.fixed 17
    ∷ text 98 LengthType.fixed 25
    ∷ digits 99 LengthType.llvar 11
    ∷ digits 100 LengthType.llvar 11
    ∷ text 101 LengthType.llvar 17
    ∷ text 102 LengthType.llvar 28
    ∷ text 103 LengthType.llvar 28
    ∷ text 104 LengthType.lllvar 100
    ∷ text 105 LengthType.lllvar 999
    ∷ text 106 LengthType.lllvar 999
    ∷ text 107 LengthType.lllvar 999
    ∷ text 108 LengthType.lllvar 999
    ∷ text 109 LengthType.lllvar 999
    ∷ text 110 LengthType.lllvar 999
    ∷ text 111 LengthType.lllvar 999
    ∷ text 112 LengthType.lllvar 999
    ∷ text 113 LengthType.lllvar 999
    ∷ text 114 LengthType.lllvar 999
    ∷ text 115 LengthType.lllvar 999
    ∷ text 116 LengthType.lllvar 999
    ∷ text 117 LengthType.lllvar 999
    ∷ text 118 LengthType.lllvar 999
    ∷ text 119 LengthType.lllvar 999
    ∷ content 120 LengthType.lllvar 999
    ∷ text 121 LengthType.lllvar 999
    ∷ text 122 LengthType.lllvar 999
    ∷ text 123 LengthType.lllvar 999
    ∷ text 124 LengthType.lllvar 999
    ∷ text 125 LengthType.lllvar 999
    ∷ text 126 LengthType.lllvar 999
    ∷ text 127 LengthType.lllvar 999
    ∷ content 128 LengthType.fixed 8
    ∷ []

unfoldable pub find_spec : ℕ → List (ℕ × FieldSpec) → Option FieldSpec
find_spec de [] = none
find_spec de ((n, spec) ∷ rest) =
    let later = find_spec de rest in if n == de then some spec else later

-- `FIELD_SPECS.get(de)`
unfoldable pub field_spec : ℕ → Option FieldSpec
unfolding find_spec field_specs
field_spec de = find_spec de field_specs
