-- ===== src/Pin/Xor.antt =====
-- The exclusive or of numbers is its own inverse.
use Prim.Native.Nat.{bit_xor, bit_xor-bitwise, digits, differ}
use microfinance_microservic.Common.{
  ℕ, zero, suc, ◌+◌, ◌*◌, ◌/◌, ◌%◌, ◌^◌, ◌≤◌, ◌<◌, ◌≡◌, refl, ap, ◌∙◌, sym, arith,
}

-- The digits by a count that is large enough do not depend on it.
abbrev counted : ℕ → ℕ → ℕ → ℕ
counted = digits (λ b. b) differ

enough_digits : (a b n m : ℕ) → a ≤ n → a ≤ m → counted n a b ≡ counted m a b
enough_digits zero b zero zero hn hm = refl
enough_digits zero b zero (suc m) hn hm = refl
enough_digits zero b (suc n) zero hn hm = refl
enough_digits zero b (suc n) (suc m) hn hm = refl
enough_digits (suc a) b zero m hn hm = absurd (omega arith)
enough_digits (suc a) b (suc n) zero hn hm = absurd (omega arith)
enough_digits (suc a) b (suc n) (suc m) hn hm =
    let halves = enough_digits (suc a / 2) (b / 2) n m (omega arith) (omega arith) in
    ap (λ h. h * 2 + differ (suc a % 2) (b % 2)) halves

nothing_xor : (b : ℕ) → bit_xor 0 b ≡ b
nothing_xor b = bit_xor-bitwise 0 b

-- The lowest digit, and the others.
xor_halves : (a b : ℕ) → bit_xor a b ≡ bit_xor (a / 2) (b / 2) * 2 + differ (a % 2) (b % 2)
xor_halves zero b = nothing_xor b ∙ rw (nothing_xor (b / 2)) (omega arith)
xor_halves (suc a) b =
    bit_xor-bitwise (suc a) b
    ∙ ap (λ h. h * 2 + differ (suc a % 2) (b % 2))
        (enough_digits (suc a / 2) (b / 2) a (suc a / 2) (omega arith) (omega arith)
          ∙ sym (bit_xor-bitwise (suc a / 2) (b / 2)))

differ_twice : (x y : ℕ) → x < 2 → y < 2 → differ (differ x y) y ≡ x
differ_twice zero zero hx hy = refl
differ_twice zero (suc zero) hx hy = refl
differ_twice (suc zero) zero hx hy = refl
differ_twice (suc zero) (suc zero) hx hy = refl
differ_twice (suc (suc x)) y hx hy = absurd (omega arith)
differ_twice zero (suc (suc y)) hx hy = absurd (omega arith)
differ_twice (suc zero) (suc (suc y)) hx hy = absurd (omega arith)

differ_digit : (x y : ℕ) → x < 2 → y < 2 → differ x y < 2
differ_digit zero y hx hy = hy
differ_digit (suc zero) zero hx hy = omega arith
differ_digit (suc zero) (suc zero) hx hy = omega arith
differ_digit (suc (suc x)) y hx hy = absurd (omega arith)
differ_digit (suc zero) (suc (suc y)) hx hy = absurd (omega arith)

parts_of : (x h d : ℕ) → x ≡ h * 2 + d → d < 2 → (x / 2 ≡ h) × (x % 2 ≡ d)
parts_of x h d e lt = (omega (arith, e, lt), omega (arith, e, lt))

twice_below : (n a b : ℕ) → a ≤ n → b ≤ n → bit_xor (bit_xor a b) b ≡ a
twice_below zero zero zero ha hb = refl
twice_below zero (suc a) b ha hb = absurd (omega arith)
twice_below zero zero (suc b) ha hb = absurd (omega arith)
twice_below (suc n) a b ha hb =
    let digit = differ_digit (a % 2) (b % 2) (omega arith) (omega arith) in
    let (high, low) =
      parts_of (bit_xor a b) (bit_xor (a / 2) (b / 2)) (differ (a % 2) (b % 2)) (xor_halves a b)
        digit in
    xor_halves (bit_xor a b) b
    ∙ rw
        (
          high,
          low,
          twice_below n (a / 2) (b / 2) (omega arith) (omega arith),
          differ_twice (a % 2) (b % 2) (omega arith) (omega arith),
        )
        (omega arith)

pub xor_twice : (a b : ℕ) → bit_xor (bit_xor a b) b ≡ a
xor_twice a b = twice_below (a + b) a b (omega arith) (omega arith)

-- No digit is made above the highest one.
pub xor_bound : (k a b : ℕ) → a < 2 ^ k → b < 2 ^ k → bit_xor a b < 2 ^ k
xor_bound zero a b ha hb =
    let none_left : a ≡ 0 = omega (arith, ha) in
    let none_right : b ≡ 0 = omega (arith, hb) in rw (none_left, none_right) (omega arith)
xor_bound (suc k) a b ha hb =
    let high = xor_bound k (a / 2) (b / 2) (omega (arith, ha)) (omega (arith, hb)) in
    let digit = differ_digit (a % 2) (b % 2) (omega arith) (omega arith) in
    omega (arith, xor_halves a b, high, digit)
