-- ===== src/Iso8583/Bitmap.antt =====
-- libs/mfcommon/mfcommon/iso8583/parser.py: `_set_bit`, `build_bitmap` and `read_bitmap`. A bit is
-- numbered as in the source: DE 1 is the highest bit of the first byte.
use Prim.Native.Nat.{bit_and, bit_or}
use microfinance_microservic.Common.{
  ℕ, zero, suc, ◌-◌, ◌*◌, ◌/◌, ◌%◌, ◌^◌, Bool, false, not, ◌||◌, Option, none, some, List, [], ◌∷◌,
  ltb, nat_eq, if◌then◌else◌, length, take, replicate,
}
use microfinance_microservic.Iso8583.Bcd.{Bytes}

abbrev cons_byte : ℕ → Option Bytes → Option Bytes
cons_byte b none = none
cons_byte b (some bytes) = some (b ∷ bytes)

-- `bitmap[i] |= mask`, which raises out of range
unfoldable pub or_byte : ℕ → ℕ → Bytes → Option Bytes
or_byte i mask [] = none
or_byte zero mask (b ∷ bytes) = some (bit_or b mask ∷ bytes)
or_byte (suc i) mask (b ∷ bytes) = cons_byte b (or_byte i mask bytes)

-- `_set_bit`; for 0 the index is -1, the last byte, and the bit its lowest
unfoldable pub set_bit : ℕ → Bytes → Option Bytes
unfolding or_byte
set_bit zero bitmap = or_byte (length bitmap - 1) 1 bitmap
set_bit (suc n) bitmap = or_byte (n / 8) (2 ^ (7 - n % 8)) bitmap

unfoldable pub any_above : ℕ → List ℕ → Bool
any_above limit [] = false
any_above limit (n ∷ ns) = ltb limit n || any_above limit ns

abbrev pub and_then : Option Bytes → (Bytes → Option Bytes) → Option Bytes
and_then none f = none
and_then (some bytes) f = f bytes

-- The loop of `build_bitmap`
unfoldable pub set_bits : List ℕ → Bytes → Option Bytes
unfolding set_bit
set_bits [] bitmap = some bitmap
set_bits (n ∷ ns) bitmap = if nat_eq n 1 then none else and_then (set_bit n bitmap) (set_bits ns)

unfoldable pub build_bitmap : List ℕ → Option Bytes
unfolding any_above set_bits
build_bitmap numbers =
    if any_above 64 numbers
    then and_then (set_bit 1 (replicate 16 0)) (set_bits numbers)
    else set_bits numbers (replicate 8 0)

-- `bitmap[i]`
unfoldable pub byte_at : ℕ → Bytes → Option ℕ
byte_at i [] = none
byte_at zero (b ∷ bytes) = some b
byte_at (suc i) (b ∷ bytes) = byte_at i bytes

-- `byte & (1 << bit)`
abbrev pub has_bit : ℕ → ℕ → Bool
has_bit b bit = not (nat_eq (bit_and b (2 ^ bit)) 0)

abbrev pub with_number : ℕ → Bool → Option (List ℕ) → Option (List ℕ)
with_number n found none = none
with_number n found (some ns) = some (if found then n ∷ ns else ns)

abbrev pub found_at : ℕ → Option ℕ → Option (List ℕ) → Option (List ℕ)
found_at i none later = none
found_at i (some b) later = with_number (suc i) (has_bit b (7 - i % 8)) later

-- The loop of `read_bitmap`, by the rounds that are left, from the index `i`
unfoldable pub read_bits : ℕ → ℕ → Bytes → Option (List ℕ)
unfolding byte_at
read_bits zero i bitmap = some []
read_bits (suc k) zero bitmap = read_bits k 1 bitmap
read_bits (suc k) (suc i) bitmap =
    found_at (suc i) (byte_at (suc i / 8) bitmap) (read_bits k (suc (suc i)) bitmap)

abbrev sized : ℕ → Option (List ℕ) → Option (List ℕ × ℕ)
sized size none = none
sized size (some numbers) = some (numbers, size)

-- `read_bitmap`, from the bytes at the offset
unfoldable pub read_bitmap : Bytes → Option (List ℕ × ℕ)
unfolding read_bits
read_bitmap [] = none
read_bitmap (b ∷ raw) =
    let total_len : ℕ = if has_bit b 7 then 16 else 8 in
    sized total_len (read_bits (total_len * 8) 0 (take total_len (b ∷ raw)))
