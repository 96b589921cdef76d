-- ===== src/Ace/Amounts.antt =====
-- The twelve digits of an amount.
use microfinance_microservic.Common.{
  ℕ, zero, suc, ◌+◌, ◌-◌, ◌/◌, ◌%◌, ◌≤◌, ◌<◌, ◌≡◌, ◌≢◌, refl, ap, [], ◌∷◌, length, length-append,
  ltb, ltb→lt, Bool-cases, inl, inr, replicate, All, All-append, arith,
}
use microfinance_microservic.Common.Int.{ℤ, pos, negsuc}
use microfinance_microservic.Common.Text.{len, string_of, AllChars-string_of}
use microfinance_microservic.Iso8583.Bcd.{Text}
use microfinance_microservic.Iso8583.Fields.{decimal}
use microfinance_microservic.Soap.Tree.{IsPlain}
use microfinance_microservic.Ace.Chain.{zfill, amount_to_de4}

abbrev pub IsVisible : ℕ → Type 0
IsVisible c = (32 ≤ c) × (c ≤ 126)

decimal-IsVisible : (fuel n : ℕ) → All IsVisible (decimal fuel n)
unfolding decimal
decimal-IsVisible zero n = omega arith
decimal-IsVisible (suc fuel) n = elim (Bool-cases (ltb n 10)) [
  | inl small ↦ rw small (let h = ltb→lt n 10 small in omega arith)
  | inr more ↦ rw more (
      All-append IsVisible (decimal fuel (n / 10)) ((48 + n % 10) ∷ [])
        (decimal-IsVisible fuel (n / 10)) (omega arith))
]

zeros-IsVisible : (n : ℕ) → All IsVisible (replicate n 48)
zeros-IsVisible zero = tt
zeros-IsVisible (suc n) = (omega arith, zeros-IsVisible n)

zfill-IsVisible : (width n : ℕ) → All IsVisible (zfill width n)
zfill-IsVisible width n =
    All-append IsVisible (replicate (width - length (decimal n n)) 48) (decimal n n)
      (zeros-IsVisible (width - length (decimal n n))) (decimal-IsVisible n n)

visible_small : (s : Text) → All IsVisible s → All (λ n. n < 55296) s
visible_small [] h = tt
visible_small (c ∷ s) (h, hs) = (omega arith, visible_small s hs)

pub string_of-IsPlain : (s : Text) → All IsVisible s → IsPlain (string_of s)
string_of-IsPlain s h = AllChars-string_of IsVisible s h (visible_small s h)

pub amount_to_de4-IsPlain : (a : ℤ) → IsPlain (amount_to_de4 a)
unfolding amount_to_de4
amount_to_de4-IsPlain (pos n) = string_of-IsPlain (zfill 12 n) (zfill-IsVisible 12 n)
amount_to_de4-IsPlain (negsuc n) =
    string_of-IsPlain (45 ∷ zfill 11 (suc n)) (omega arith, zfill-IsVisible 11 (suc n))

len-string_of : (s : Text) → len (string_of s) ≡ length s
unfolding string_of
len-string_of [] = refl
len-string_of (c ∷ s) = ap (λ (n : ℕ). suc n) (len-string_of s)

length-replicate : (n : ℕ) → length (replicate {A = ℕ} n 48) ≡ n
length-replicate zero = refl
length-replicate (suc n) = ap (λ (m : ℕ). suc m) (length-replicate n)

zfill_wide : (width n : ℕ) → width ≤ length (zfill width n)
zfill_wide width n = omega (
  arith,
  length-append (replicate (width - length (decimal n n)) 48) (decimal n n),
  length-replicate (width - length (decimal n n)),
)

pub amount_given : (a : ℤ) → amount_to_de4 a ≢ ""
unfolding amount_to_de4
amount_given (pos n) =
    λ e. absurd (omega (arith, zfill_wide 12 n, len-string_of (zfill 12 n), ap len e))
amount_given (negsuc n) =
    λ e. absurd (omega (arith, len-string_of (45 ∷ zfill 11 (suc n)), ap len e))
