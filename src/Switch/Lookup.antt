-- ===== src/Switch/Lookup.antt =====
-- Lookups of the fields of a message, in whatever order they stand.
use microfinance_microservic.Common.{
  ℕ, ◌≡◌, refl, sym, ◌∙◌, true, false, some, [], ◌∷◌, ltb, nat_eq, nat_eq_iff, Bool-cases, inl, inr,
  All, arith,
}
use microfinance_microservic.Iso8583.Bcd.{Text}
use microfinance_microservic.Iso8583.Message.{numbers, in_order, insert}
use microfinance_microservic.Iso8583.FieldRoundtrip.{FitsField}
use microfinance_microservic.Iso8583.BitmapRead.{elem}
use microfinance_microservic.Iso8583.MessageRoundtrip.{Distinct, elem-in_order, not_either}
use microfinance_microservic.Switch.Client.{Fields, get_field, put_field}
use microfinance_microservic.Switch.Correlation.{text_eq}

pub text_inj : (s t : Text) → some s ≡ some t → s ≡ t
text_inj s t e = cc

pub text_eq_refl : (s : Text) → text_eq s s ≡ true
unfolding text_eq
text_eq_refl [] = refl
text_eq_refl (c ∷ s) = rw ((nat_eq_iff c c).1 refl) (text_eq_refl s)

pub get_field-put_field :
    (de : ℕ) (value : Text) (fields : Fields)
    → get_field de (put_field de value fields) ≡ some value
unfolding get_field put_field
get_field-put_field de value [] = rw ((nat_eq_iff de de).1 refl) refl
get_field-put_field de value ((n, v) ∷ fields) = elim (Bool-cases (nat_eq n de)) [
  | inl e ↦ rw (e, e) refl
  | inr e ↦ rw (e, e) (get_field-put_field de value fields)
]

-- The order of the fields is of no consequence to a lookup.
pub get_field-insert :
    (m de : ℕ) (value : Text) (fields : Fields)
    → elem de (numbers fields) ≡ false
    → get_field m (insert de value fields) ≡ get_field m ((de, value) ∷ fields)
unfolding get_field insert
get_field-insert m de value [] new = refl
get_field-insert m de value ((other, v) ∷ fields) new =
    let (apart, later) = not_either (nat_eq other de) (elem de (numbers fields)) new in
    elim (Bool-cases (ltb other de)) [
      | inl e ↦ rw (e, get_field-insert m de value fields later) (ground arith)
      | inr e ↦ rw e refl
    ]

pub get_field-in_order :
    (m : ℕ) (fields : Fields)
    → Distinct (numbers fields)
    → get_field m (in_order fields) ≡ get_field m fields
unfolding get_field in_order
get_field-in_order m [] h = refl
get_field-in_order m ((de, value) ∷ fields) h =
    get_field-insert m de value (in_order fields) (elem-in_order de fields ∙ h.0)
    ∙ rw (get_field-in_order m fields h.1) refl

-- A field that is there has a value that its entry can hold.
pub get_field-FitsField :
    (de : ℕ) (value : Text) (fields : Fields)
    → All FitsField fields
    → get_field de fields ≡ some value
    → FitsField (de, value)
unfolding get_field
get_field-FitsField de value [] h found = cc
get_field-FitsField de value ((n, v) ∷ fields) h found = elim (Bool-cases (nat_eq n de)) [
  | inl e ↦
      let same : v ≡ value = text_inj v value (rw e at found) in
      rw (sym same, sym ((nat_eq_iff n de).0 e)) h.0
  | inr e ↦ get_field-FitsField de value fields h.1 (rw e at found)
]
