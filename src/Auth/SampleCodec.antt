-- ===== src/Auth/SampleCodec.antt =====
-- A codec for runs of the tokens: four letters for each byte, and payloads as numbers in unary.
use Prim.Native.Nat.{compare, Ordering}
use Prim.Native.Char.{Char, char, code, nul, IsScalar}
use package.text.Mathlib.TextEquality.{Char-path}
use microfinance_microservic.Common.{
  ℕ, zero, suc, ◌+◌, ◌-◌, ◌*◌, ◌/◌, ◌%◌, ◌<◌, ◌≡◌, refl, sym, ap, ◌∙◌, String, Option, none, some,
  List, [], ◌∷◌, length, All, arith, append-nil,
}
use microfinance_microservic.Common.Text.{codes}
use microfinance_microservic.Iso8583.Bcd.{Bytes, Text}
use microfinance_microservic.Auth.Tokens.{
  Claim, text, number, Payload, loaded, IsByte, IsSafe, Codec,
}

abbrev pub letters : Bytes → Text
letters [] = []
letters (b ∷ bytes) = (65 + b / 16) ∷ (65 + b % 16) ∷ 65 ∷ 65 ∷ letters bytes

abbrev put_byte : ℕ → Option Bytes → Option Bytes
put_byte b none = none
put_byte b (some bytes) = some (b ∷ bytes)

abbrev read_letters : Text → Option Bytes
read_letters (h ∷ l ∷ c ∷ d ∷ s) = put_byte ((h - 65) * 16 + (l - 65)) (read_letters s)
read_letters _ = some []

letter-IsSafe : (n : ℕ) → n < 16 → IsSafe (65 + n)
letter-IsSafe n h = (omega (arith, h), ground arith, ground arith)

pub letters-IsSafe : (bytes : Bytes) → All IsByte bytes → All IsSafe (letters bytes)
letters-IsSafe [] h = tt
letters-IsSafe (b ∷ bytes) (h, hs) = (
  letter-IsSafe (b / 16) (omega (arith, h)),
  (
    letter-IsSafe (b % 16) (omega arith),
    (letter-IsSafe 0 (omega arith), (letter-IsSafe 0 (omega arith), letters-IsSafe bytes hs)),
  ),
)

pub letters_length : (bytes : Bytes) → length (letters bytes) % 4 ≡ 0
letters_length [] = refl
letters_length (b ∷ bytes) = let e = letters_length bytes in omega (arith, e)

pub read_letters-letters : (bytes : Bytes) → read_letters (letters bytes) ≡ some bytes
read_letters-letters [] = refl
read_letters-letters (b ∷ bytes) =
    ap (put_byte ((65 + b / 16 - 65) * 16 + (65 + b % 16 - 65))) (read_letters-letters bytes)
    ∙ ap (λ a. some (a ∷ bytes)) (omega arith)

abbrev char_if :
    (n : ℕ) (o p q : Ordering)
    → compare n 55296 ≡ o
    → compare 57343 n ≡ p
    → compare n 1114112 ≡ q
    → Char
char_if n Ordering.lt p q e f g = char n (rw e tt)
char_if n Ordering.eq Ordering.lt Ordering.lt e f g = char n (rw (e, f, g) tt)
char_if n Ordering.gt Ordering.lt Ordering.lt e f g = char n (rw (e, f, g) tt)
char_if n _ _ _ e f g = nul

abbrev string_of : List ℕ → String
string_of [] = String.[]
string_of (n ∷ s) =
    String.◌∷◌ (char_if n (compare n 55296) (compare 57343 n) (compare n 1114112) refl refl refl)
      (string_of s)

code-char_if :
    (n : ℕ) (o p q : Ordering) (e : compare n 55296 ≡ o) (f : compare 57343 n ≡ p)
    (g : compare n 1114112 ≡ q)
    → IsScalar n
    → code (char_if n o p q e f g) ≡ n
code-char_if n Ordering.lt p q e f g h = refl
code-char_if n Ordering.eq p q e f g h = ground (arith, e)
code-char_if n Ordering.gt Ordering.lt Ordering.lt e f g h = refl
code-char_if n Ordering.gt Ordering.lt Ordering.eq e f g h =
    let z : ⊥ = rw (e, f, g) at h in elim z [ ]
code-char_if n Ordering.gt Ordering.lt Ordering.gt e f g h =
    let z : ⊥ = rw (e, f, g) at h in elim z [ ]
code-char_if n Ordering.gt Ordering.eq q e f g h = let z : ⊥ = rw (e, f) at h in elim z [ ]
code-char_if n Ordering.gt Ordering.gt q e f g h = let z : ⊥ = rw (e, f) at h in elim z [ ]

string_of-codes : (s : String) → string_of (codes s) ≡ s
string_of-codes String.[] = refl
string_of-codes (String.◌∷◌ (char n h) s) = cc (
  Char-path (char_if n (compare n 55296) (compare 57343 n) (compare n 1114112) refl refl refl)
      (char n h)
      (code-char_if n (compare n 55296) (compare 57343 n) (compare n 1114112) refl refl refl h),
  string_of-codes s,
)

-- 3 starts a word, 2 a number, and 1 adds to it.
abbrev step : ℕ → List (List ℕ) → List (List ℕ)
step (suc (suc (suc m))) words = [] ∷ words
step (suc (suc zero)) (word ∷ words) = (0 ∷ word) ∷ words
step (suc zero) ((n ∷ word) ∷ words) = (suc n ∷ word) ∷ words
step _ words = words

abbrev read_words : Bytes → List (List ℕ)
read_words [] = []
read_words (b ∷ bytes) = step b (read_words bytes)

abbrev put_number : ℕ → Bytes → Bytes
put_number zero bytes = 2 ∷ bytes
put_number (suc n) bytes = 1 ∷ put_number n bytes

abbrev put_word : List ℕ → Bytes → Bytes
put_word [] bytes = 3 ∷ bytes
put_word (n ∷ word) bytes = put_number n (put_word word bytes)

read-put_number :
    (n : ℕ) (bytes : Bytes) {word : List ℕ} {words : List (List ℕ)}
    → read_words bytes ≡ word ∷ words
    → read_words (put_number n bytes) ≡ (n ∷ word) ∷ words
read-put_number zero bytes e = rw e refl
read-put_number (suc n) bytes e = rw (read-put_number n bytes e) refl

read-put_word :
    (word : List ℕ) (bytes : Bytes) → read_words (put_word word bytes) ≡ word ∷ read_words bytes
read-put_word [] bytes = refl
read-put_word (n ∷ word) bytes = read-put_number n (put_word word bytes) (read-put_word word bytes)

abbrev word_of : Claim → List ℕ
word_of (text s) = 0 ∷ codes s
word_of (number n) = 1 ∷ n ∷ []

abbrev claim_of : List ℕ → Claim
claim_of (zero ∷ s) = text (string_of s)
claim_of (suc m ∷ n ∷ w) = number n
claim_of _ = number 0

claim_of-word_of : (claim : Claim) → claim_of (word_of claim) ≡ claim
claim_of-word_of (text s) = ap text (string_of-codes s)
claim_of-word_of (number n) = refl

abbrev dumps : Payload → Bytes
dumps [] = []
dumps ((k, v) ∷ payload) = put_word (codes k) (put_word (word_of v) (dumps payload))

abbrev pairs : List (List ℕ) → Payload
pairs (k ∷ v ∷ words) = (string_of k, claim_of v) ∷ pairs words
pairs _ = []

pub pairs-dumps : (payload : Payload) → pairs (read_words (dumps payload)) ≡ payload
pairs-dumps [] = refl
pairs-dumps ((k, v) ∷ payload) =
    ap pairs (
      read-put_word (codes k) (put_word (word_of v) (dumps payload))
      ∙ ap (λ words. codes k ∷ words) (read-put_word (word_of v) (dumps payload)))
    ∙ cc (string_of-codes k, claim_of-word_of v, pairs-dumps payload)

put_number_bytes : (n : ℕ) (bytes : Bytes) → All IsByte bytes → All IsByte (put_number n bytes)
put_number_bytes zero bytes h = (omega arith, h)
put_number_bytes (suc n) bytes h = (omega arith, put_number_bytes n bytes h)

put_word_bytes :
    (word : List ℕ) (bytes : Bytes) → All IsByte bytes → All IsByte (put_word word bytes)
put_word_bytes [] bytes h = (omega arith, h)
put_word_bytes (n ∷ word) bytes h =
    put_number_bytes n (put_word word bytes) (put_word_bytes word bytes h)

pub dumps_bytes : (payload : Payload) → All IsByte (dumps payload)
dumps_bytes [] = tt
dumps_bytes ((k, v) ∷ payload) =
    put_word_bytes (codes k) (put_word (word_of v) (dumps payload))
      (put_word_bytes (word_of v) (dumps payload) (dumps_bytes payload))

abbrev total : Text → ℕ
total [] = 0
total (c ∷ s) = (c + 7 * total s) % 251

abbrev pub lettered : Codec
lettered = record {
  b64encode = letters;
  b64decode = read_letters;
  b64_padded = λ bytes h. (
    letters bytes,
    0,
    sym (append-nil (letters bytes)),
    letters-IsSafe bytes h,
    omega arith,
    omega (arith, letters_length bytes),
  );
  b64_again = λ bytes h. read_letters-letters bytes;
  dumps = dumps;
  loads = λ bytes. loaded (pairs (read_words bytes));
  dumps_bytes = dumps_bytes;
  dumps_again = λ payload distinct. ap loaded (pairs-dumps payload);
  digest = λ secret message. total secret % 256 ∷ total message % 256 ∷ [];
  digest_bytes = λ secret message. (omega arith, (omega arith, tt));
}
