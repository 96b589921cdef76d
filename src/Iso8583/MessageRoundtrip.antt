-- ===== src/Iso8583/MessageRoundtrip.antt =====
-- Whole messages survive `build_message` and `parse_message` of
-- libs/mfcommon/mfcommon/iso8583/parser.py.
use microfinance_microservic.Common.{
  ℕ, ◌+◌, ◌*◌, ◌≤◌, ◌<◌, ◌≡◌, refl, sym, ◌∙◌, Bool, true, false, ◌||◌, Option, none, some, List, [],
  ◌∷◌, ◌++◌, ltb, leb, ◌&&◌, nat_eq, length, length-append, append_assoc, take_all, drop_all,
  drop-append, All, Bool-cases, inl, inr, arith,
}
use microfinance_microservic.Iso8583.Bcd.{Bytes, Text}
use microfinance_microservic.Iso8583.Catalog.{FieldSpec, field_spec, find_spec, field_specs}
use microfinance_microservic.Iso8583.Fields.{encode_fields, decode_fields}
use microfinance_microservic.Iso8583.Message.{
  numbers, insert, in_order, Message, build_message, parse_message,
}
use microfinance_microservic.Iso8583.BcdRoundtrip.{IsDecimal, bcd_decode-bcd_encode}
use microfinance_microservic.Iso8583.BitmapRead.{elem, IsNumber, Rising}
use microfinance_microservic.Iso8583.BitmapRoundtrip.{
  bitmap_size, fit_within, read_bitmap-build_bitmap,
}
use microfinance_microservic.Iso8583.FieldRoundtrip.{
  FitsField, FitsFound, decode_fields-encode_fields,
}

-- No key of a dictionary stands twice.
abbrev pub Distinct : List ℕ → Type 0
Distinct [] = Unit
Distinct (n ∷ ns) = (elem n ns ≡ false) × Distinct ns

or_move : (a b c : Bool) → (a || (b || c)) ≡ (b || (a || c))
or_move true true c = refl
or_move true false c = refl
or_move false b c = refl

pub elem-insert :
    (m de : ℕ) (value : Text) (fields : List (ℕ × Text))
    → elem m (numbers (insert de value fields)) ≡ (nat_eq de m || elem m (numbers fields))
unfolding insert
elem-insert m de value [] = refl
elem-insert m de value ((other, v) ∷ fields) = elim (Bool-cases (ltb other de)) [
  | inl e ↦
      rw (e, elem-insert m de value fields)
        (or_move (nat_eq other m) (nat_eq de m) (elem m (numbers fields)))
  | inr e ↦ rw e refl
]

pub elem-in_order :
    (m : ℕ) (fields : List (ℕ × Text))
    → elem m (numbers (in_order fields)) ≡ elem m (numbers fields)
unfolding in_order
elem-in_order m [] = refl
elem-in_order m ((de, value) ∷ fields) =
    rw (elem-insert m de value (in_order fields), elem-in_order m fields)

pub not_either : (a b : Bool) → (a || b) ≡ false → (a ≡ false) × (b ≡ false)
not_either true b h = cc
not_either false b h = (refl, h)

insert-Rising :
    (bound de : ℕ) (value : Text) (fields : List (ℕ × Text))
    → Rising bound (numbers fields)
    → bound < de
    → elem de (numbers fields) ≡ false
    → Rising bound (numbers (insert de value fields))
unfolding insert
insert-Rising bound de value [] rise lo new = (lo, tt)
insert-Rising bound de value ((other, v) ∷ fields) rise lo new =
    let (apart, later) = not_either (nat_eq other de) (elem de (numbers fields)) new in
    elim (Bool-cases (ltb other de)) [
      | inl e ↦ rw e (rise.0, insert-Rising other de value fields rise.1 (ground arith) later)
      | inr e ↦ rw e (lo, (ground arith, rise.1))
    ]

module _ {ℓ} (P : ℕ × Text → Type ℓ) where
  insert-All :
      (de : ℕ) (value : Text) (fields : List (ℕ × Text))
      → P (de, value)
      → All P fields
      → All P (insert de value fields)
  unfolding insert
  insert-All de value [] h hs = (h, tt)
  insert-All de value ((other, v) ∷ fields) h hs = elim (Bool-cases (ltb other de)) [
    | inl e ↦ rw e (hs.0, insert-All de value fields h hs.1)
    | inr e ↦ rw e (h, hs)
  ]

  in_order-All : (fields : List (ℕ × Text)) → All P fields → All P (in_order fields)
  unfolding in_order
  in_order-All [] h = tt
  in_order-All ((de, value) ∷ fields) h =
      insert-All de value (in_order fields) h.0 (in_order-All fields h.1)

in_order-Rising :
    (fields : List (ℕ × Text))
    → All (λ f. 1 < f.0) fields
    → Distinct (numbers fields)
    → Rising 1 (numbers (in_order fields))
unfolding in_order
in_order-Rising [] lo h = tt
in_order-Rising ((de, value) ∷ fields) lo h =
    insert-Rising 1 de value (in_order fields) (in_order-Rising fields lo.1 h.1) lo.0
      (elem-in_order de fields ∙ h.0)

-- A predicate on the numbers of fields.
module _ (P : ℕ → Type 0) where
  on_fields : (fields : List (ℕ × Text)) → All P (numbers fields) → All (λ f. P f.0) fields
  on_fields [] h = tt
  on_fields ((de, value) ∷ fields) h = (h.0, on_fields fields h.1)

  on_numbers : (fields : List (ℕ × Text)) → All (λ f. P f.0) fields → All P (numbers fields)
  on_numbers [] h = tt
  on_numbers ((de, value) ∷ fields) h = (h.0, on_numbers fields h.1)

-- Every element of the catalog has a number that a bitmap of 16 bytes has room for, but the first.
abbrev numbered : List (ℕ × FieldSpec) → Bool
numbered [] = true
numbered ((n, spec) ∷ specs) = (leb 2 n && leb n 128) && numbered specs

find_spec-IsNumber :
    (de : ℕ) (spec : FieldSpec) (specs : List (ℕ × FieldSpec))
    → numbered specs ≡ true
    → find_spec de specs ≡ some spec
    → IsNumber 16 de
unfolding find_spec
find_spec-IsNumber de spec [] h found = cc
find_spec-IsNumber de spec ((n, other) ∷ specs) h found = elim (Bool-cases (nat_eq n de)) [
  | inl e ↦ ground arith
  | inr e ↦ find_spec-IsNumber de spec specs (ground arith) (rw e at found)
]

catalog_numbered : numbered field_specs ≡ true
unfolding field_specs
catalog_numbered = refl

fits_number :
    (de : ℕ) (value : Text) (o : Option FieldSpec)
    → field_spec de ≡ o
    → FitsFound o value
    → IsNumber 16 de
unfolding field_spec
fits_number de value none e h = absurd h
fits_number de value (some spec) e h = find_spec-IsNumber de spec field_specs catalog_numbered e

FitsField-IsNumber :
    (fields : List (ℕ × Text)) → All FitsField fields → All (λ f. IsNumber 16 f.0) fields
FitsField-IsNumber [] h = tt
FitsField-IsNumber ((de, value) ∷ fields) h =
    (fits_number de value (field_spec de) refl h.0, FitsField-IsNumber fields h.1)

above_one :
    (fields : List (ℕ × Text)) → All (λ f. IsNumber 16 f.0) fields → All (λ f. 1 < f.0) fields
above_one [] h = tt
above_one ((de, value) ∷ fields) h = (h.0.0, above_one fields h.1)

abbrev with_size : Message → ℕ → Option (Message × ℕ)
with_size m n = some (m, n)

same_message : (m : Message) (a b : ℕ) → a ≡ b → with_size m a ≡ with_size m b
same_message m a b e = rw e refl

-- Of a message that is built: its fields on their own too, and that they are most of it.
pub message_lem :
    (mti : Text) (fields : List (ℕ × Text)) (rest : Bytes)
    → All IsDecimal mti
    → length mti ≡ 4
    → All FitsField fields
    → Distinct (numbers fields)
    → (bytes : Bytes) × (build_message mti fields ≡ some bytes)
      × (parse_message (bytes ++ rest)
          ≡ some ((record { mti = mti; fields = in_order fields }), length bytes))
      × (body : Bytes) × (encode_fields (in_order fields) ≡ some body)
      × (decode_fields (numbers (in_order fields)) (body ++ rest)
          ≡ some (in_order fields, length body))
      × (length bytes ≤ 18 + length body)
unfolding build_message parse_message
message_lem mti fields rest digits four fits distinct =
    let bounds = FitsField-IsNumber fields fits in
    let ns : List ℕ = numbers fields in
    let inside : All (IsNumber 16) ns = on_numbers (IsNumber 16) fields bounds in
    let (front, coded, decoded, two) = bcd_decode-bcd_encode mti digits in
    let (body, written, read) =
      decode_fields-encode_fields (in_order fields) rest (in_order-All FitsField fields fits) in
    let (bitmap, built, seen, most) =
      read_bitmap-build_bitmap ns (numbers (in_order fields)) (body ++ rest) inside
        (in_order-Rising fields (above_one fields bounds) distinct)
        (on_numbers (λ n. n ≤ 8 * bitmap_size ns) (in_order fields)
          (in_order-All (λ f. f.0 ≤ 8 * bitmap_size ns) fields
            (on_fields (λ n. n ≤ 8 * bitmap_size ns) fields (fit_within ns inside))))
        (λ m. elem-in_order m fields) in
    let size : length front ≡ 2 = omega (arith, two, four) in
    (
      front ++ (bitmap ++ body),
      rw (coded, built, written),
      rw
          (
            append_assoc front (bitmap ++ body) rest,
            append_assoc bitmap body rest,
            take_all 2 front (bitmap ++ (body ++ rest)) size,
            drop_all 2 front (bitmap ++ (body ++ rest)) size,
            seen,
            drop-append bitmap (body ++ rest),
            read,
            sym four,
            decoded,
          )
          (same_message (record { mti = mti; fields = in_order fields })
            (2 + length bitmap + length body) (length (front ++ (bitmap ++ body)))
            (omega (arith, size, length-append front (bitmap ++ body), length-append bitmap body))),
      body,
      written,
      read,
      omega (arith, size, most, length-append front (bitmap ++ body), length-append bitmap body),
    )

-- A message of the catalog's fields, no two of one number and each with a value that its entry can
-- hold, is built, and parsed again from the bytes and whatever follows: the same type, the fields
-- in the order of their numbers, and as many bytes as were built.
pub parse_message-build_message :
    (mti : Text) (fields : List (ℕ × Text)) (rest : Bytes)
    → All IsDecimal mti
    → length mti ≡ 4
    → All FitsField fields
    → Distinct (numbers fields)
    → (bytes : Bytes) × (build_message mti fields ≡ some bytes)
      × (parse_message (bytes ++ rest)
          ≡ some ((record { mti = mti; fields = in_order fields }), length bytes))
parse_message-build_message mti fields rest digits four fits distinct =
    let (bytes, built, parsed, body, wrote, read, most) =
      message_lem mti fields rest digits four fits distinct in
    (bytes, built, parsed)
