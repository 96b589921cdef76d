-- ===== src/Iso8583/BitmapRead.antt =====
-- What the loops of `build_bitmap` and `read_bitmap` of
-- libs/mfcommon/mfcommon/iso8583/parser.py set and read.
use microfinance_microservic.Common.{
  ℕ, zero, suc, ◌+◌, ◌*◌, ◌/◌, ◌≤◌, ◌<◌, ◌≡◌, refl, ap, ◌∙◌, Bool, true, false, ◌||◌, Option, some,
  List, [], ◌∷◌, nat_eq, nat_eq_iff, length, All, arith, inl, inr, Bool-cases,
}
use microfinance_microservic.Iso8583.Bcd.{Bytes}
use microfinance_microservic.Iso8583.Bitmap.{set_bits, byte_at, with_number, found_at, read_bits}
use microfinance_microservic.Iso8583.Bits.{
  AreBytes, bit_at, byte_at_total, set_bit_lem, not_one, or_swap,
}

abbrev pub elem : ℕ → List ℕ → Bool
elem m [] = false
elem m (n ∷ ns) = nat_eq n m || elem m ns

-- The number of a data element, of those that a bitmap of a size can have.
abbrev pub IsNumber : ℕ → ℕ → Type 0
IsNumber size n = (2 ≤ n) × (n ≤ 8 * size)

pub set_bits_lem :
    (ns : List ℕ) (bitmap : Bytes)
    → AreBytes bitmap
    → All (IsNumber (length bitmap)) ns
    → (after : Bytes) × (set_bits ns bitmap ≡ some after)
      × (length after ≡ length bitmap)
      × AreBytes after
      × ((m : ℕ) → bit_at m after ≡ (elem (suc m) ns || bit_at m bitmap))
unfolding set_bits
set_bits_lem [] bitmap h hs = (bitmap, refl, refl, h, λ m. refl)
set_bits_lem (n ∷ ns) bitmap h hs =
    let (one, set, size, bytes, bits) = set_bit_lem n bitmap h (omega (arith, hs.0)) hs.0.1 in
    let (after, sets, size', bytes', bits') = set_bits_lem ns one bytes (rw size hs.1) in
    (
      after,
      rw (not_one n hs.0.0, set) sets,
      size' ∙ size,
      bytes',
      λ m. rw (bits' m, bits m) (or_swap (elem (suc m) ns) (nat_eq n (suc m)) (bit_at m bitmap)),
    )

-- Rising numbers, above a bound.
abbrev pub Rising : ℕ → List ℕ → Type 0
Rising bound [] = Unit
Rising bound (n ∷ ns) = (bound < n) × Rising n ns

pub All_weaken : (a b : ℕ) (ns : List ℕ) → a ≤ b → All (λ n. n ≤ a) ns → All (λ n. n ≤ b) ns
All_weaken a b [] h fit = tt
All_weaken a b (n ∷ ns) h fit = (omega (arith, fit.0), All_weaken a b ns h fit.1)

pub elem_below : (m b : ℕ) (ns : List ℕ) → Rising b ns → m ≤ b → elem m ns ≡ false
elem_below m b [] r h = refl
elem_below m b (n ∷ ns) r h = ground (arith, elem_below m n ns r.1)

pub read_step :
    (i b : ℕ) (bitmap : Bytes) (e : Bool) (later : Option (List ℕ))
    → byte_at (i / 8) bitmap ≡ some b
    → bit_at i bitmap ≡ e
    → found_at i (byte_at (i / 8) bitmap) later ≡ with_number (suc i) e later
read_step i b bitmap e later found h =
    rw found (ap (λ x. with_number (suc i) x later) (rw found at h))

pub elem_other : (n m : ℕ) (ns : List ℕ) → n < m → elem m (n ∷ ns) ≡ elem m ns
elem_other n m ns h = ground arith

pub elem_head : (n : ℕ) (ns : List ℕ) → elem n (n ∷ ns) ≡ true
elem_head n ns = ground arith

-- The loop of `read_bitmap` from `i`, of a bitmap whose bits from there are those of a rising list.
pub read_bits_lem :
    (k i : ℕ) (bitmap : Bytes) (ns : List ℕ)
    → suc i + k ≤ 8 * length bitmap
    → Rising (suc i) ns
    → All (λ n. n ≤ suc i + k) ns
    → ((m : ℕ) → suc i ≤ m → bit_at m bitmap ≡ elem (suc m) ns)
    → read_bits k (suc i) bitmap ≡ some ns
unfolding read_bits
read_bits_lem zero i bitmap [] room rise fit bits = refl
read_bits_lem zero i bitmap (n ∷ ns) room rise fit bits = absurd (omega (arith, rise.0, fit.0))
read_bits_lem (suc k) i bitmap [] room rise fit bits =
    let (b, found) = byte_at_total (suc i / 8) bitmap (omega arith) in
    rw (
      read_step (suc i) b bitmap false (read_bits k (suc (suc i)) bitmap) found
          (bits (suc i) (omega arith)),
      read_bits_lem k (suc i) bitmap [] (omega arith) tt tt (λ m h. bits m (omega arith)),
    )
read_bits_lem (suc k) i bitmap (n ∷ ns) room rise fit bits =
    let (b, found) = byte_at_total (suc i / 8) bitmap (omega arith) in
    elim (Bool-cases (nat_eq n (suc (suc i)))) [
      | inl e ↦
          let here : n ≡ suc (suc i) = (nat_eq_iff n (suc (suc i))).0 e in
          rw (
            read_step (suc i) b bitmap true (read_bits k (suc (suc i)) bitmap) found
                (bits (suc i) (omega arith) ∙ rw here (elem_head (suc (suc i)) ns)),
            read_bits_lem k (suc i) bitmap ns (omega arith) (rw here at rise.1)
                (All_weaken (suc i + suc k) (suc (suc i) + k) ns (omega arith) fit.1)
                (λ m h. bits m (omega arith) ∙ elem_other n (suc m) ns (omega arith)),
            here,
          )
      | inr e ↦
          let past : suc (suc i) < n = ground arith in
          rw (
            read_step (suc i) b bitmap false (read_bits k (suc (suc i)) bitmap) found (
                bits (suc i) (omega arith)
                ∙ elem_below (suc (suc i)) (suc (suc i)) (n ∷ ns) (past, rise.1) (omega arith)),
            read_bits_lem k (suc i) bitmap (n ∷ ns) (omega arith) (past, rise.1)
                (All_weaken (suc i + suc k) (suc (suc i) + k) (n ∷ ns) (omega arith) fit)
                (λ m h. bits m (omega arith)),
          )
    ]
