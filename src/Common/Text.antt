-- ===== src/Common/Text.antt =====
-- Texts that the source walks character by character.
use Prim.Native.Nat.{ℕ, suc, ◌+◌, ◌-◌, ◌<◌, compare, Ordering}
use Prim.Native.Char.{Char, char, code, nul}
use Prim.Native.String.{String}
use mathlib.Core.Path.{◌≡◌, refl, sym, subst}
use mathlib.Core.Bool.{Bool}
use mathlib.Core.List.{List, [], ◌∷◌}
use native.Mathlib.Omega.{arith}
use text.Mathlib.TextEquality.{Char-path}
use microfinance_microservic.Common.Tests.{nat_eq}
use microfinance_microservic.Common.Lists.{All}

-- `s + t`
abbrev pub append : String → String → String
append String.[] t = t
append (String.◌∷◌ c s) t = String.◌∷◌ c (append s t)

-- `len(s)`
abbrev pub len : String → ℕ
len String.[] = 0
len (String.◌∷◌ c s) = suc (len s)

-- `s[n:]`
abbrev pub drop_chars : ℕ → String → String
drop_chars ℕ.zero s = s
drop_chars (suc n) String.[] = String.[]
drop_chars (suc n) (String.◌∷◌ c s) = drop_chars n s

-- `s[-n:]`, the last `n` characters, or all of a shorter text.
abbrev pub last_chars : ℕ → String → String
last_chars n s = drop_chars (len s - n) s

-- The character is the digit 0.
abbrev pub is_zero_char : Char → Bool
is_zero_char c = nat_eq (code c) b'0'

-- A predicate holds of every character.
abbrev pub AllChars : (Char → Type 0) → String → Type 0
AllChars P String.[] = Unit
AllChars P (String.◌∷◌ c s) = P c × AllChars P s

pub len-append : (s t : String) → len (append s t) ≡ len s + len t
len-append String.[] t = omega arith
len-append (String.◌∷◌ c s) t = omega (arith, len-append s t)

pub len-drop_chars : (n : ℕ) (s : String) → len (drop_chars n s) ≡ len s - n
len-drop_chars ℕ.zero s = omega arith
len-drop_chars (suc n) String.[] = omega arith
len-drop_chars (suc n) (String.◌∷◌ c s) = omega (arith, len-drop_chars n s)

pub AllChars-append :
    (P : Char → Type 0) (s t : String) → AllChars P s → AllChars P t → AllChars P (append s t)
AllChars-append P String.[] t hs ht = ht
AllChars-append P (String.◌∷◌ c s) t hs ht = (hs.0, AllChars-append P s t hs.1 ht)

-- The code points of a text
abbrev pub codes : String → List ℕ
codes String.[] = []
codes (String.◌∷◌ c s) = code c ∷ codes s

abbrev char_if : (n : ℕ) (o : Ordering) → compare n 55296 ≡ o → Char
char_if n Ordering.lt e = char n (rw e tt)
char_if n Ordering.eq e = nul
char_if n Ordering.gt e = nul

-- The character of a code point below the surrogates
abbrev pub char_of : ℕ → Char
char_of n = char_if n (compare n 55296) refl

-- The text of code points below the surrogates, such as those of latin-1
unfoldable pub string_of : List ℕ → String
string_of [] = String.[]
string_of (n ∷ s) = String.◌∷◌ (char_of n) (string_of s)

code-char_if :
    (n : ℕ) (o : Ordering) (e : compare n 55296 ≡ o) → n < 55296 → code (char_if n o e) ≡ n
code-char_if n Ordering.lt e h = refl
code-char_if n Ordering.eq e h = ground (arith, e)
code-char_if n Ordering.gt e h = ground (arith, e)

-- A predicate of code points below the surrogates, as one of the characters of their text.
pub AllChars-string_of :
    (P : ℕ → Type 0) (s : List ℕ)
    → All P s
    → All (λ n. n < 55296) s
    → AllChars (λ c. P (code c)) (string_of s)
unfolding string_of
AllChars-string_of P [] h small = tt
AllChars-string_of P (n ∷ s) (h, hs) (lt, small) =
    (subst P (sym (code-char_if n (compare n 55296) refl lt)) h, AllChars-string_of P s hs small)

pub string_of-codes : (s : String) → AllChars (λ c. code c < 55296) s → string_of (codes s) ≡ s
unfolding string_of
string_of-codes String.[] h = refl
string_of-codes (String.◌∷◌ c s) (h, hs) = cc (
  Char-path (char_of (code c)) c (code-char_if (code c) (compare (code c) 55296) refl h),
  string_of-codes s hs,
)
