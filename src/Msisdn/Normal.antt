-- ===== src/Msisdn/Normal.antt =====
-- libs/mfcommon/mfcommon/identity/msisdn.py: the stored form of a number.
use microfinance_microservic.Common.{
  ℕ, ◌≡◌, refl, ◌≤◌, ap, String, Bool, true, false, some, arith, if◌then◌else◌,
}
use microfinance_microservic.Common.Text.{append, len, is_zero_char, AllChars, AllChars-append}
use microfinance_microservic.Msisdn.{
  ok, strip_zeros, starts_with_zero, check_length, to_international, is_digit, digits_of,
  normalise_digits, normalise,
}

-- A country code: digits, the first of them not 0.
abbrev pub IsCountryCode : (ℕ → Bool) → String → Type 0
IsCountryCode unicode_digit String.[] = ⊥
IsCountryCode unicode_digit (String.◌∷◌ c s) =
    (is_zero_char c ≡ false)
    × (is_digit unicode_digit c ≡ true)
    × AllChars (λ x. is_digit unicode_digit x ≡ true) s

-- The stored form: digits, a length within the bounds, no leading 0.
abbrev pub IsStored : (ℕ → Bool) → String → Type 0
IsStored unicode_digit d =
    AllChars (λ x. is_digit unicode_digit x ≡ true) d
    × (starts_with_zero d ≡ false)
    × (10 ≤ len d)
    × (len d ≤ 15)

strip_zeros-starts : (s : String) → starts_with_zero (strip_zeros s) ≡ false
unfolding strip_zeros starts_with_zero
strip_zeros-starts String.[] = refl
strip_zeros-starts (String.◌∷◌ c s) = grind (arith, strip_zeros-starts s)

strip_zeros-id : (s : String) → starts_with_zero s ≡ false → strip_zeros s ≡ s
unfolding strip_zeros starts_with_zero
strip_zeros-id String.[] h = refl
strip_zeros-id (String.◌∷◌ c s) h = grind arith

starts_with_zero-append :
    (u : ℕ → Bool) (cc s : String) → IsCountryCode u cc → starts_with_zero (append cc s) ≡ false
unfolding starts_with_zero
starts_with_zero-append u String.[] s h = absurd h
starts_with_zero-append u (String.◌∷◌ c cs) s h = h.0

to_international-starts :
    (u : ℕ → Bool) (cc s : String)
    → IsCountryCode u cc
    → starts_with_zero (to_international cc s) ≡ false
unfolding to_international
to_international-starts u cc s h = ground (arith, starts_with_zero-append u cc (strip_zeros s) h)

module _ (unicode_digit : ℕ → Bool) where
  abbrev AllDigits : String → Type 0
  AllDigits = AllChars (λ x. is_digit unicode_digit x ≡ true)

  digits_of-AllDigits : (s : String) → AllDigits (digits_of unicode_digit s)
  unfolding digits_of
  digits_of-AllDigits String.[] = tt
  digits_of-AllDigits (String.◌∷◌ c s) = grind (arith, digits_of-AllDigits s)

  digits_of-id : (s : String) → AllDigits s → digits_of unicode_digit s ≡ s
  unfolding digits_of
  digits_of-id String.[] h = refl
  digits_of-id (String.◌∷◌ c s) h = grind (arith, digits_of-id s h.1, h.0)

  strip_zeros-AllDigits : (s : String) → AllDigits s → AllDigits (strip_zeros s)
  unfolding strip_zeros
  strip_zeros-AllDigits String.[] h = tt
  strip_zeros-AllDigits (String.◌∷◌ c s) h = grind (arith, strip_zeros-AllDigits s h.1, h)

  cc-AllDigits : (cc : String) → IsCountryCode unicode_digit cc → AllDigits cc
  cc-AllDigits String.[] h = absurd h
  cc-AllDigits (String.◌∷◌ c s) h = (h.1, h.2)

  normal_eq :
      (cc d : String) → IsStored unicode_digit d → normalise unicode_digit cc (some d) ≡ ok d
  unfolding normalise normalise_digits check_length to_international
  normal_eq cc String.[] h = ground arith
  normal_eq cc (String.◌∷◌ c s) h = ground (arith, digits_of-id (String.◌∷◌ c s) h.0)

  either-AllDigits :
      (b : Bool) (s t : String) → AllDigits s → AllDigits t → AllDigits (if b then s else t)
  either-AllDigits true s t hs ht = hs
  either-AllDigits false s t hs ht = ht

  to_international-AllDigits :
      (country_code s : String)
      → IsCountryCode unicode_digit country_code
      → AllDigits s
      → AllDigits (to_international country_code s)
  unfolding to_international
  to_international-AllDigits country_code s h digits =
      either-AllDigits (starts_with_zero s) (append country_code (strip_zeros s)) s
        (AllChars-append (λ x. is_digit unicode_digit x ≡ true) country_code (strip_zeros s)
          (cc-AllDigits country_code h) (strip_zeros-AllDigits s digits))
        digits

  digits-IsStored :
      (cc s d : String)
      → IsCountryCode unicode_digit cc
      → AllDigits s
      → normalise_digits unicode_digit cc s ≡ ok d
      → IsStored unicode_digit d
  unfolding normalise_digits check_length
  digits-IsStored cc String.[] d h digits found = ground arith
  digits-IsStored cc (String.◌∷◌ c s) d h digits found = ground (
    arith,
    to_international-AllDigits cc (String.◌∷◌ c s) h digits,
    to_international-starts unicode_digit cc (String.◌∷◌ c s) h,
  )

  -- For a country code of digits that does not begin with 0, what `normalise` returns is digits
  -- only, ten to fifteen of them, and does not begin with 0.
  pub normalise-IsStored :
      (country_code raw d : String)
      → IsCountryCode unicode_digit country_code
      → normalise unicode_digit country_code (some raw) ≡ ok d
      → IsStored unicode_digit d
  unfolding normalise
  normalise-IsStored country_code raw d h found =
      digits-IsStored country_code (digits_of unicode_digit raw) d h (digits_of-AllDigits raw) found

  -- For such a country code, a number that `normalise` returned is normalised to itself.
  pub normalise_idempotent :
      (country_code raw d : String)
      → IsCountryCode unicode_digit country_code
      → normalise unicode_digit country_code (some raw) ≡ ok d
      → normalise unicode_digit country_code (some d) ≡ ok d
  normalise_idempotent country_code raw d h found =
      normal_eq country_code d (normalise-IsStored country_code raw d h found)

  local_digits : (s : String) → AllDigits s → digits_of unicode_digit (append "0" s) ≡ append "0" s
  unfolding is_digit
  local_digits s h = digits_of-id (append "0" s) (refl, h)

  local_form :
      (country_code s : String)
      → starts_with_zero s ≡ false
      → to_international country_code (append "0" s) ≡ append country_code s
  unfolding to_international starts_with_zero strip_zeros
  local_form country_code s h = ap (append country_code) (strip_zeros-id s h)

  -- For such a country code, the local spelling of a number, with the trunk prefix 0, and the
  -- international one, with the country code, are normalised alike.
  pub spellings_agree :
      (country_code subscriber : String)
      → IsCountryCode unicode_digit country_code
      → AllDigits subscriber
      → starts_with_zero subscriber ≡ false
      → normalise unicode_digit country_code (some (append "0" subscriber))
        ≡ normalise unicode_digit country_code (some (append country_code subscriber))
  unfolding normalise normalise_digits to_international
  spellings_agree String.[] subscriber h digits start = absurd h
  spellings_agree (String.◌∷◌ c s) subscriber h digits start = grind (
    arith,
    local_digits subscriber digits,
    local_form (String.◌∷◌ c s) subscriber start,
    digits_of-id (append (String.◌∷◌ c s) subscriber) (
        AllChars-append (λ x. is_digit unicode_digit x ≡ true) (String.◌∷◌ c s) subscriber
          (cc-AllDigits (String.◌∷◌ c s) h) digits),
    starts_with_zero-append unicode_digit (String.◌∷◌ c s) subscriber h,
  )
