-- ===== src/Iso8583/Bits.antt =====
-- The bits of a bitmap: what `_set_bit` of libs/mfcommon/mfcommon/iso8583/parser.py does to each of them.
use Prim.Native.Nat.{bit_or}
use microfinance_microservic.Common.{
  ℕ, zero, suc, ◌-◌, ◌*◌, ◌/◌, ◌%◌, ◌^◌, ◌≤◌, ◌<◌, ◌≡◌, refl, sym, Bool, true, false, not, ◌&&◌,
  ◌||◌, Option, none, some, [], ◌∷◌, ltb, nat_eq, nat_eq_iff, ltb→lt, length, All, arith, inl, inr,
  Bool-cases, if◌then◌else◌,
}
use microfinance_microservic.Iso8583.Bcd.{Bytes}
use microfinance_microservic.Iso8583.Bitmap.{or_byte, set_bit, byte_at, has_bit}

-- A test passes under a limit: decided by trying the numbers, from the limit down.
passes : (ℕ → Bool) → ℕ → Bool
passes test zero = true
passes test (suc limit) = let under = passes test limit in if test limit then under else false

passes_at :
    (test : ℕ → Bool) (limit value : ℕ)
    → value < limit
    → passes test limit ≡ true
    → test value ≡ true
unfolding passes
passes_at test zero value inside ok = absurd (omega arith)
passes_at test (suc limit) value inside ok =
    let earlier = passes_at test limit value in ground arith

abbrev same : Bool → Bool → Bool
same true b = b
same false b = not b

same_eq : (a b : Bool) → same a b ≡ true → a ≡ b
same_eq true true h = refl
same_eq true false h = sym h
same_eq false true h = h
same_eq false false h = refl

abbrev law_at : ℕ → ℕ → ℕ → Bool
law_at b j k =
    ltb (bit_or b (2 ^ j)) 256 && same (has_bit (bit_or b (2 ^ j)) k) (nat_eq j k || has_bit b k)

bit_table : passes (λ b. passes (λ j. passes (law_at b j) 8) 8) 256 ≡ true
unfolding passes
bit_table = refl

byte_law : (b j k : ℕ) → b < 256 → j < 8 → k < 8 → law_at b j k ≡ true
byte_law b j k hb hj hk =
    let row = passes_at (λ b. passes (λ j. passes (law_at b j) 8) 8) 256 b hb bit_table in
    let cell = passes_at (λ j. passes (law_at b j) 8) 8 j hj row in
    passes_at (law_at b j) 8 k hk cell

and_parts : (a b : Bool) → (a && b) ≡ true → (a ≡ true) × (b ≡ true)
and_parts true b h = (refl, h)
and_parts false b h = cc

or_bound : (b j : ℕ) → b < 256 → j < 8 → bit_or b (2 ^ j) < 256
or_bound b j hb hj =
    ltb→lt (bit_or b (2 ^ j)) 256
      (and_parts (ltb (bit_or b (2 ^ j)) 256)
        (same (has_bit (bit_or b (2 ^ j)) 0) (nat_eq j 0 || has_bit b 0))
        (byte_law b j 0 hb hj (omega arith))).0

has_bit-or :
    (b j k : ℕ)
    → b < 256
    → j < 8
    → k < 8
    → has_bit (bit_or b (2 ^ j)) k ≡ (nat_eq j k || has_bit b k)
has_bit-or b j k hb hj hk =
    same_eq (has_bit (bit_or b (2 ^ j)) k) (nat_eq j k || has_bit b k)
      (and_parts (ltb (bit_or b (2 ^ j)) 256)
        (same (has_bit (bit_or b (2 ^ j)) k) (nat_eq j k || has_bit b k))
        (byte_law b j k hb hj hk)).1

negated : (a : Bool) → not a ≡ true → a ≡ false
negated true h = sym h
negated false h = refl

-- An empty byte, and the byte of the flag of a second bitmap.
pub zero_table : (j : ℕ) → j < 8 → has_bit 0 j ≡ false
unfolding passes
zero_table j h = negated (has_bit 0 j) (passes_at (λ j. not (has_bit 0 j)) 8 j h refl)

pub flag_table : (j : ℕ) → j < 7 → has_bit 128 j ≡ false
unfolding passes
flag_table j h = negated (has_bit 128 j) (passes_at (λ j. not (has_bit 128 j)) 7 j h refl)

-- `or_byte` in range.
or_total : ℕ → ℕ → Bytes → Bytes
or_total i mask [] = []
or_total zero mask (b ∷ bytes) = bit_or b mask ∷ bytes
or_total (suc i) mask (b ∷ bytes) = b ∷ or_total i mask bytes

or_byte-or_total :
    (i mask : ℕ) (bytes : Bytes)
    → i < length bytes
    → or_byte i mask bytes ≡ some (or_total i mask bytes)
unfolding or_byte or_total
or_byte-or_total i mask [] h = absurd (omega arith)
or_byte-or_total zero mask (b ∷ bytes) h = refl
or_byte-or_total (suc i) mask (b ∷ bytes) h = rw (or_byte-or_total i mask bytes (omega arith))

length-or_total : (i mask : ℕ) (bytes : Bytes) → length (or_total i mask bytes) ≡ length bytes
unfolding or_total
length-or_total i mask [] = refl
length-or_total zero mask (b ∷ bytes) = refl
length-or_total (suc i) mask (b ∷ bytes) = omega (arith, length-or_total i mask bytes)

abbrev ored : Bool → ℕ → Option ℕ → Option ℕ
ored true mask (some b) = some (bit_or b mask)
ored true mask none = none
ored false mask o = o

byte_at-or_total :
    (m i mask : ℕ) (bytes : Bytes)
    → byte_at m (or_total i mask bytes) ≡ ored (nat_eq i m) mask (byte_at m bytes)
unfolding byte_at or_total
byte_at-or_total m i mask [] = ground arith
byte_at-or_total zero zero mask (b ∷ bytes) = refl
byte_at-or_total (suc m) zero mask (b ∷ bytes) = ground arith
byte_at-or_total zero (suc i) mask (b ∷ bytes) = ground arith
byte_at-or_total (suc m) (suc i) mask (b ∷ bytes) = ground (arith, byte_at-or_total m i mask bytes)

abbrev pub AreBytes : Bytes → Type 0
AreBytes = All (λ b. b < 256)

or_total-AreBytes :
    (i j : ℕ) (bytes : Bytes) → AreBytes bytes → j < 8 → AreBytes (or_total i (2 ^ j) bytes)
unfolding or_total
or_total-AreBytes i j [] h hj = tt
or_total-AreBytes zero j (b ∷ bytes) h hj = (or_bound b j h.0 hj, h.1)
or_total-AreBytes (suc i) j (b ∷ bytes) h hj = (h.0, or_total-AreBytes i j bytes h.1 hj)

-- Bit `i` of a bitmap, from 0.
abbrev pub bit_of : Option ℕ → ℕ → Bool
bit_of none i = false
bit_of (some b) i = has_bit b (7 - i % 8)

abbrev pub bit_at : ℕ → Bytes → Bool
bit_at i bytes = bit_of (byte_at (i / 8) bytes) i

byte_at-lt : (i b : ℕ) (bytes : Bytes) → AreBytes bytes → byte_at i bytes ≡ some b → b < 256
unfolding byte_at
byte_at-lt i b [] h e = ground arith
byte_at-lt zero b (c ∷ bytes) h e = ground arith
byte_at-lt (suc i) b (c ∷ bytes) h e = byte_at-lt i b bytes h.1 e

pub byte_at_total :
    (i : ℕ) (bytes : Bytes) → i < length bytes → (b : ℕ) × (byte_at i bytes ≡ some b)
unfolding byte_at
byte_at_total i [] h = absurd (omega arith)
byte_at_total zero (c ∷ bytes) h = (c, refl)
byte_at_total (suc i) (c ∷ bytes) h = byte_at_total i bytes (omega arith)

same_byte : (i m : ℕ) → i / 8 ≡ m / 8 → nat_eq (7 - i % 8) (7 - m % 8) ≡ nat_eq i m
same_byte i m h = ground arith

other_byte : (i m : ℕ) → nat_eq (i / 8) (m / 8) ≡ false → nat_eq i m ≡ false
other_byte i m h = ground arith

bit_at-or_total :
    (m i : ℕ) (bytes : Bytes)
    → AreBytes bytes
    → i / 8 < length bytes
    → bit_at m (or_total (i / 8) (2 ^ (7 - i % 8)) bytes) ≡ (nat_eq i m || bit_at m bytes)
bit_at-or_total m i bytes h hi = elim (Bool-cases (nat_eq (i / 8) (m / 8))) [
  | inl e ↦
      let here : i / 8 ≡ m / 8 = (nat_eq_iff (i / 8) (m / 8)).0 e in
      let (b, found) = byte_at_total (m / 8) bytes (omega (arith, here, hi)) in
      rw (
        byte_at-or_total (m / 8) (i / 8) (2 ^ (7 - i % 8)) bytes,
        e,
        found,
        has_bit-or b (7 - i % 8) (7 - m % 8) (byte_at-lt (m / 8) b bytes h found) (omega arith)
            (omega arith),
        same_byte i m here,
      )
  | inr e ↦ rw (byte_at-or_total (m / 8) (i / 8) (2 ^ (7 - i % 8)) bytes, e, other_byte i m e)
]

nat_eq-suc : (n m : ℕ) → nat_eq (suc n) (suc m) ≡ nat_eq n m
nat_eq-suc n m = ground arith

pub not_one : (n : ℕ) → 2 ≤ n → nat_eq n 1 ≡ false
not_one n h = ground arith

pub or_swap : (a b c : Bool) → (a || (b || c)) ≡ ((b || a) || c)
or_swap true true c = refl
or_swap true false c = refl
or_swap false true c = refl
or_swap false false c = refl

-- `_set_bit` at a number that the bitmap has room for.
pub set_bit_lem :
    (n : ℕ) (bitmap : Bytes)
    → AreBytes bitmap
    → 1 ≤ n
    → n ≤ 8 * length bitmap
    → (after : Bytes) × (set_bit n bitmap ≡ some after)
      × (length after ≡ length bitmap)
      × AreBytes after
      × ((m : ℕ) → bit_at m after ≡ (nat_eq n (suc m) || bit_at m bitmap))
unfolding set_bit
set_bit_lem zero bitmap h lo hi = absurd (omega arith)
set_bit_lem (suc n) bitmap h lo hi = (
  or_total (n / 8) (2 ^ (7 - n % 8)) bitmap,
  or_byte-or_total (n / 8) (2 ^ (7 - n % 8)) bitmap (omega arith),
  length-or_total (n / 8) (2 ^ (7 - n % 8)) bitmap,
  or_total-AreBytes (n / 8) (7 - n % 8) bitmap h (omega arith),
  λ m. rw (nat_eq-suc n m) (bit_at-or_total m n bitmap h (omega arith)),
)
