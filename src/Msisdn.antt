-- ===== src/Msisdn.antt =====
-- libs/mfcommon/mfcommon/identity/msisdn.py: phone numbers as account identifiers.
-- `\d` matches every decimal digit of Unicode, so the digits outside ASCII are the parameter
-- `unicode_digit` on code points; `country_code` is the argument or DEFAULT_COUNTRY_CODE.
pub mod Normal
mod Tests
use Prim.Native.Char.{Char, code}
use microfinance_microservic.Common.{
  ℕ, ◌≤◌, ◌&&◌, String, Bool, true, false, Option, none, some, ltb, leb, ◌==◌, HasEq-text,
  if◌then◌else◌,
}
use microfinance_microservic.Common.Text.{append, len, drop_chars, last_chars, is_zero_char}

abbrev pub min_digits : ℕ
min_digits = 10

abbrev pub max_digits : ℕ
max_digits = 15

pub data InvalidMsisdn : Type 0 where
  missing no_digits : InvalidMsisdn
  bad_length : ℕ → InvalidMsisdn

pub data Normalised : Type 0 where
  ok : String → Normalised
  invalid : InvalidMsisdn → Normalised

-- `digits.lstrip("0")`
unfoldable pub strip_zeros : String → String
strip_zeros String.[] = String.[]
strip_zeros (String.◌∷◌ c s) =
    let rest = strip_zeros s in if is_zero_char c then rest else String.◌∷◌ c s

unfoldable pub starts_with_zero : String → Bool
starts_with_zero String.[] = false
starts_with_zero (String.◌∷◌ c s) = is_zero_char c

-- The length check at the end of `normalise`.
unfoldable pub check_length : String → Normalised
check_length digits =
    if leb min_digits (len digits) && leb (len digits) max_digits
    then ok digits
    else invalid (bad_length (len digits))

-- A leading zero is the national trunk prefix.
unfoldable pub to_international : String → String → String
unfolding strip_zeros starts_with_zero
to_international country_code digits =
    if starts_with_zero digits then append country_code (strip_zeros digits) else digits

module _ (unicode_digit : ℕ → Bool) where
  unfoldable pub is_digit : Char → Bool
  is_digit c =
      if ltb (code c) 128 then leb b'0' (code c) && leb (code c) b'9' else unicode_digit (code c)

  -- `_NON_DIGITS.sub("", s)`
  unfoldable pub digits_of : String → String
  digits_of String.[] = String.[]
  digits_of (String.◌∷◌ c s) =
      let rest = digits_of s in if is_digit c then String.◌∷◌ c rest else rest

  unfoldable pub normalise_digits : String → String → Normalised
  unfolding to_international check_length
  normalise_digits country_code String.[] = invalid no_digits
  normalise_digits country_code (String.◌∷◌ c s) =
      check_length (to_international country_code (String.◌∷◌ c s))

  unfoldable pub normalise : String → Option String → Normalised
  normalise country_code none = invalid missing
  normalise country_code (some raw) = normalise_digits country_code (digits_of raw)

  pub is_msisdn : String → Option String → Bool
  is_msisdn country_code value = elim (normalise country_code value) [
    | ok d ↦ true
    | invalid e ↦ false
  ]

  -- For logs: the last four digits, or nothing.
  pub mask : Option String → String
  mask none = "-"
  mask (some value) =
      if value == ""
      then "-"
      else if ltb 4 (len (digits_of value))
      then append "..." (last_chars 4 (digits_of value))
      else "..."
