-- ===== src/Iso8583/BitmapRoundtrip.antt =====
-- The numbers of the fields survive `build_bitmap` and `read_bitmap` of
-- libs/mfcommon/mfcommon/iso8583/parser.py.
use microfinance_microservic.Common.{
  ℕ, zero, suc, ◌+◌, ◌-◌, ◌*◌, ◌/◌, ◌%◌, ◌≤◌, ◌≡◌, refl, sym, ◌∙◌, Bool, true, false, ◌||◌, Option,
  none, some, List, [], ◌∷◌, nat_eq, nat_eq_iff, if◌then◌else◌, length, take_all, replicate, All,
  arith, inl, inr, Bool-cases, ◌++◌,
}
use microfinance_microservic.Iso8583.Bcd.{Bytes}
use microfinance_microservic.Iso8583.Bitmap.{
  any_above, set_bits, build_bitmap, byte_at, read_bits, read_bitmap,
}
use microfinance_microservic.Iso8583.Bits.{
  AreBytes, bit_at, bit_of, not_one, zero_table, flag_table,
}
use microfinance_microservic.Iso8583.BitmapRead.{
  elem, IsNumber, set_bits_lem, Rising, read_bits_lem,
}

zero_byte : (k m : ℕ) (b : ℕ) → byte_at m (replicate k 0) ≡ some b → b ≡ 0
unfolding byte_at
zero_byte zero m b h = ground arith
zero_byte (suc k) zero b h = ground arith
zero_byte (suc k) (suc m) b h = zero_byte k m b h

no_bit : (m : ℕ) (o : Option ℕ) → ((b : ℕ) → o ≡ some b → b ≡ 0) → bit_of o m ≡ false
no_bit m none h = refl
no_bit m (some b) h = rw (h b refl) (zero_table (7 - m % 8) (omega arith))

no_bits : (k m : ℕ) → bit_at m (replicate k 0) ≡ false
no_bits k m = no_bit m (byte_at (m / 8) (replicate k 0)) (zero_byte k (m / 8))

zero-AreBytes : (k : ℕ) → AreBytes (replicate k 0)
zero-AreBytes zero = tt
zero-AreBytes (suc k) = (omega arith, zero-AreBytes k)

within : (ns : List ℕ) → any_above 64 ns ≡ false → All (IsNumber 16) ns → All (IsNumber 8) ns
unfolding any_above
within [] e h = tt
within (n ∷ ns) e h = ((h.0.0, ground arith), within ns (ground arith) h.1)

no_one : (ns : List ℕ) → All (IsNumber 16) ns → elem 1 ns ≡ false
no_one [] h = refl
no_one (n ∷ ns) h = rw (not_one n h.0.0, no_one ns h.1)

or_false : (a : Bool) → (a || false) ≡ a
or_false true = refl
or_false false = refl

-- The bytes that a bitmap starts from: of 8, or of 16 where a number needs them.
abbrev blank : List ℕ → Bytes
blank ns = if any_above 64 ns then 128 ∷ replicate 15 0 else replicate 8 0

abbrev pub bitmap_size : List ℕ → ℕ
bitmap_size ns = if any_above 64 ns then 16 else 8

long_tail : (q r : ℕ) (b : ℕ) → 1 ≤ q → byte_at q (128 ∷ replicate 15 0) ≡ some b → b ≡ 0
unfolding byte_at
long_tail zero r b lo h = absurd (omega arith)
long_tail (suc q) r b lo h = zero_byte 15 q b h

long_bits : (m : ℕ) → 1 ≤ m → bit_at m (128 ∷ replicate 15 0) ≡ false
unfolding byte_at
long_bits m lo = elim (Bool-cases (nat_eq (m / 8) 0)) [
  | inl e ↦ rw ((nat_eq_iff (m / 8) 0).0 e) (flag_table (7 - m % 8) (ground arith))
  | inr e ↦
      no_bit m (byte_at (m / 8) (128 ∷ replicate 15 0)) (λ b. long_tail (m / 8) 0 b (ground arith))
]

blank_lem :
    (ns : List ℕ)
    → All (IsNumber 16) ns
    → AreBytes (blank ns)
      × (length (blank ns) ≡ bitmap_size ns)
      × (bit_at 0 (blank ns) ≡ any_above 64 ns)
      × All (IsNumber (length (blank ns))) ns
      × ((m : ℕ) → 1 ≤ m → bit_at m (blank ns) ≡ false)
unfolding byte_at
blank_lem ns h = elim (Bool-cases (any_above 64 ns)) [
  | inl e ↦ rw e ((omega arith, zero-AreBytes 15), refl, refl, h, long_bits)
  | inr e ↦ rw e (zero-AreBytes 8, refl, no_bits 8 0, within ns e h, λ m lo. no_bits 8 m)
]

build_bitmap-blank : (ns : List ℕ) → build_bitmap ns ≡ set_bits ns (blank ns)
unfolding build_bitmap
build_bitmap-blank ns = elim (Bool-cases (any_above 64 ns)) [
  | inl e ↦ rw e refl
  | inr e ↦ rw e refl
]

-- What `build_bitmap` makes: the bits of the numbers, and the first for the longer size.
build_bitmap_lem :
    (ns : List ℕ)
    → All (IsNumber 16) ns
    → (bitmap : Bytes) × (build_bitmap ns ≡ some bitmap)
      × (length bitmap ≡ bitmap_size ns)
      × (bit_at 0 bitmap ≡ any_above 64 ns)
      × ((m : ℕ) → 1 ≤ m → bit_at m bitmap ≡ elem (suc m) ns)
build_bitmap_lem ns h =
    let (bytes, size, flag, fits, bits) = blank_lem ns h in
    let (bitmap, sets, size', bytes', bits') = set_bits_lem ns (blank ns) bytes fits in
    (
      bitmap,
      build_bitmap-blank ns ∙ sets,
      size' ∙ size,
      bits' 0 ∙ rw (no_one ns h) flag,
      λ m lo. bits' m ∙ rw (bits m lo) (or_false (elem (suc m) ns)),
    )

-- What a bitmap reads, before whatever follows it.
read_bitmap_lem :
    (long : Bool) (bitmap rest : Bytes) (ns : List ℕ)
    → length bitmap ≡ (if long then 16 else 8)
    → bit_at 0 bitmap ≡ long
    → read_bits (if long then 127 else 63) 1 bitmap ≡ some ns
    → read_bitmap (bitmap ++ rest) ≡ some (ns, if long then 16 else 8)
unfolding read_bitmap byte_at
read_bitmap_lem long [] rest ns e flag h = ground arith
read_bitmap_lem true (b ∷ bytes) rest ns e flag h =
    rw (flag, take_all 15 bytes rest (omega (arith, e)), h)
read_bitmap_lem false (b ∷ bytes) rest ns e flag h =
    rw (flag, take_all 7 bytes rest (omega (arith, e)), h)

fit_short : (ns : List ℕ) → All (IsNumber 8) ns → All (λ n. n ≤ 64) ns
fit_short [] h = tt
fit_short (n ∷ ns) h = (h.0.1, fit_short ns h.1)

fit_long : (ns : List ℕ) → All (IsNumber 16) ns → All (λ n. n ≤ 128) ns
fit_long [] h = tt
fit_long (n ∷ ns) h = (h.0.1, fit_long ns h.1)

fit_size :
    (long : Bool) (ns : List ℕ)
    → All (IsNumber 16) ns
    → any_above 64 ns ≡ long
    → All (λ n. n ≤ 8 * (if long then 16 else 8)) ns
fit_size true ns h e = fit_long ns h
fit_size false ns h e = fit_short ns (within ns e h)

-- The numbers fit the bitmap that `build_bitmap` makes for them.
pub fit_within : (ns : List ℕ) → All (IsNumber 16) ns → All (λ n. n ≤ 8 * bitmap_size ns) ns
fit_within ns h = fit_size (any_above 64 ns) ns h refl

rounds_eq : (long : Bool) → 1 + (if long then 127 else 63) ≡ 8 * (if long then 16 else 8)
rounds_eq true = refl
rounds_eq false = refl

size_most : (long : Bool) → (if long then 16 else 8) ≤ 16
size_most true = omega arith
size_most false = omega arith

-- The numbers of the fields, in any order, are built, and read again in theirs.
pub read_bitmap-build_bitmap :
    (ns sorted : List ℕ) (rest : Bytes)
    → All (IsNumber 16) ns
    → Rising 1 sorted
    → All (λ n. n ≤ 8 * bitmap_size ns) sorted
    → ((m : ℕ) → elem m sorted ≡ elem m ns)
    → (bitmap : Bytes) × (build_bitmap ns ≡ some bitmap)
      × (read_bitmap (bitmap ++ rest) ≡ some (sorted, length bitmap))
      × (length bitmap ≤ 16)
read_bitmap-build_bitmap ns sorted rest h rise fit same =
    let (bitmap, built, size, flag, bits) = build_bitmap_lem ns h in
    (
      bitmap,
      built,
      rw size (
          read_bitmap_lem (any_above 64 ns) bitmap rest sorted size flag (
            read_bits_lem (if any_above 64 ns then 127 else 63) 0 bitmap sorted
              (omega (arith, rounds_eq (any_above 64 ns), size)) rise
              (rw (rounds_eq (any_above 64 ns)) fit) (λ m lo. bits m lo ∙ sym (same (suc m))))),
      omega (arith, size, size_most (any_above 64 ns)),
    )
