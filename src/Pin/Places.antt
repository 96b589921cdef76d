-- ===== src/Pin/Places.antt =====
-- Numbers and their hexadecimal digits.
use microfinance_microservic.Common.{
  ℕ, zero, suc, ◌+◌, ◌-◌, ◌*◌, ◌/◌, ◌%◌, ◌^◌, ◌≤◌, ◌<◌, ◌≡◌, refl, sym, ap, ◌∙◌, some, [], ◌∷◌,
  ◌++◌, append_assoc, append-nil, length, take, drop, replicate, All, arith,
}
use microfinance_microservic.Iso8583.Bcd.{Text, hex_value, hex_digit}
use microfinance_microservic.Iso8583.BcdRoundtrip.{IsDecimal}
use microfinance_microservic.Pin.{plus_digit, int_after, hex_places}

-- An upper-case hexadecimal digit, by its value.
abbrev pub IsHex : ℕ → Type 0
IsHex c = (v : ℕ) × (v < 16) × (c ≡ hex_digit v)

pub hex_value-hex_digit : (v : ℕ) → v < 16 → hex_value (hex_digit v) ≡ some v
unfolding hex_value
hex_value-hex_digit v h = ground arith

pub plus_zero : (j : ℕ) → j + 0 ≡ j
plus_zero j = omega arith

pub plus_suc : (j n : ℕ) → j + suc n ≡ suc j + n
plus_suc j n = omega arith

pub int_step :
    (n v c : ℕ) (s : Text)
    → v < 16
    → c ≡ hex_digit v
    → int_after (some n) (c ∷ s) ≡ int_after (some (16 * n + v)) s
int_step n v c s small e =
    ap (λ o. int_after (plus_digit n o) s) (ap hex_value e ∙ hex_value-hex_digit v small)

pub nibble_high : (n v : ℕ) → v < 16 → (16 * n + v) / 16 ≡ n
nibble_high n v h = omega (arith, h)

pub nibble_low : (n v : ℕ) → v < 16 → (16 * n + v) % 16 ≡ v
nibble_low n v h = omega (arith, h)

-- The number of hexadecimal digits, and the digits of the number.
pub next_place :
    (n v c j : ℕ) (s : Text)
    → v < 16
    → c ≡ hex_digit v
    → hex_places (suc j) (16 * n + v) ++ s ≡ hex_places j n ++ c ∷ s
unfolding hex_places
next_place n v c j s small e =
    rw (nibble_high n v small, nibble_low n v small)
      (append_assoc (hex_places j n) (hex_digit v ∷ []) s
        ∙ ap (λ d. hex_places j n ++ d ∷ s) (sym e))

pub int_after_lem :
    (s : Text) (j n : ℕ)
    → All IsHex s
    → n < 16 ^ j
    → (m : ℕ) × (int_after (some n) s ≡ some m)
      × (m < 16 ^ (j + length s))
      × (hex_places (j + length s) m ≡ hex_places j n ++ s)
unfolding hex_places
int_after_lem [] j n h lt =
    (n, refl, rw (plus_zero j) lt, rw (plus_zero j) (sym (append-nil (hex_places j n))))
int_after_lem (c ∷ s) j n ((v, small, e), h) lt =
    let (m, read, bound, places) =
      int_after_lem s (suc j) (16 * n + v) h (omega (arith, lt, small)) in
    (
      m,
      int_step n v c s small e ∙ read,
      rw (plus_suc j (length s)) bound,
      rw (plus_suc j (length s)) (places ∙ next_place n v c j s small e),
    )

pub decimal-IsHex : (c : ℕ) → IsDecimal c → IsHex c
decimal-IsHex c h = (c - 48, omega (arith, h), ground arith)

pub decimals-IsHex : (s : Text) → All IsDecimal s → All IsHex s
decimals-IsHex [] h = tt
decimals-IsHex (c ∷ s) h = (decimal-IsHex c h.0, decimals-IsHex s h.1)

pub copies-IsHex : (n c : ℕ) → IsHex c → All IsHex (replicate n c)
copies-IsHex zero c h = tt
copies-IsHex (suc n) c h = (h, copies-IsHex n c h)

pub length-copies : (n c : ℕ) → length (replicate n c) ≡ n
length-copies zero c = refl
length-copies (suc n) c = omega (arith, length-copies n c)

pub take-IsDecimal : (n : ℕ) (s : Text) → All IsDecimal s → All IsDecimal (take n s)
take-IsDecimal zero s h = tt
take-IsDecimal (suc n) [] h = tt
take-IsDecimal (suc n) (c ∷ s) h = (h.0, take-IsDecimal n s h.1)

pub drop-IsDecimal : (n : ℕ) (s : Text) → All IsDecimal s → All IsDecimal (drop n s)
drop-IsDecimal zero s h = h
drop-IsDecimal (suc n) [] h = tt
drop-IsDecimal (suc n) (c ∷ s) h = drop-IsDecimal n s h.1

pub length-take : (n : ℕ) (s : Text) → length (take n s) ≤ n
length-take zero s = omega arith
length-take (suc n) [] = omega arith
length-take (suc n) (c ∷ s) = omega (arith, length-take n s)

pub length-drop : (n : ℕ) (s : Text) → length (drop n s) ≡ length s - n
length-drop zero s = omega arith
length-drop (suc n) [] = omega arith
length-drop (suc n) (c ∷ s) = omega (arith, length-drop n s)
