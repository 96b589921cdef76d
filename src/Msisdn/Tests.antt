-- ===== src/Msisdn/Tests.antt =====
-- Runs of `normalise`, with no digit outside ASCII, and instances of its theorems.
use microfinance_microservic.Common.{ℕ, ◌≡◌, refl, Bool, false, some}
use microfinance_microservic.Msisdn.{
  ok, invalid, bad_length, normalise, normalise_digits, digits_of, is_digit, to_international,
  strip_zeros, starts_with_zero, check_length,
}
use microfinance_microservic.Msisdn.Normal.{
  IsStored, normalise-IsStored, normalise_idempotent, spellings_agree,
}

abbrev ascii : ℕ → Bool
ascii c = false

local_spelling : normalise ascii "92" (some "0300-1234567") ≡ ok "923001234567"
unfolding normalise normalise_digits digits_of is_digit to_international strip_zeros
    starts_with_zero check_length
local_spelling = refl

too_short : normalise ascii "92" (some "12 34") ≡ invalid (bad_length 4)
unfolding normalise normalise_digits digits_of is_digit to_international starts_with_zero
    check_length
too_short = refl

normalise-IsStored_run : IsStored ascii "923001234567"
unfolding is_digit
normalise-IsStored_run =
    normalise-IsStored ascii "92" "0300-1234567" "923001234567" (refl, refl, (refl, tt))
      local_spelling

normalise_idempotent_example : normalise ascii "92" (some "923001234567") ≡ ok "923001234567"
unfolding is_digit
normalise_idempotent_example =
    normalise_idempotent ascii "92" "0300-1234567" "923001234567" (refl, refl, (refl, tt))
      local_spelling

spellings_agree_run :
    normalise ascii "92" (some "03001234567") ≡ normalise ascii "92" (some "923001234567")
unfolding is_digit starts_with_zero
spellings_agree_run =
    spellings_agree ascii "92" "3001234567" (refl, refl, (refl, tt))
      (refl, (refl, (refl, (refl, (refl, (refl, (refl, (refl, (refl, (refl, tt)))))))))) refl
