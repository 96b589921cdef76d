-- ===== src/Auth/Tests.antt =====
-- Runs of auth-service, and instances of its theorems.
use microfinance_microservic.Common.{◌≡◌, refl, true, some, List, [], ◌∷◌, arith}
use microfinance_microservic.Iso8583.Bcd.{Text}
use microfinance_microservic.Msisdn.{
  ok, normalise, normalise_digits, digits_of, is_digit, to_international, strip_zeros,
  starts_with_zero, check_length,
}
use microfinance_microservic.Auth.{
  TokenIssuing, User, RegisterRequest, answer, active, no_longer_exists, valid_register,
  violates_unique, register, login, introspect, delete_user,
}
use microfinance_microservic.Auth.Passwords.{
  hash_password, verify_password, hashing, same_text, hex_text, verify_password-hash_password,
}
use microfinance_microservic.Auth.Users.{
  IsTable, Request, to_register, to_delete, handle_all, handle_all-IsTable,
}
use microfinance_microservic.Auth.Issuing.{issuing}
use microfinance_microservic.Auth.SampleCodec.{lettered}
use microfinance_microservic.Auth.Sample.{ascii, derive, plain, Salt, salt}
use microfinance_microservic.Auth.Login.{login-register}

verify_password-hash_password_example :
    (verify_password derive "wrong" (hash_password derive (255 ∷ 16 ∷ []) "correct horse")
      ≡ some (same_text (hex_text (5 ∷ 255 ∷ 16 ∷ [])) (hex_text (13 ∷ 255 ∷ 16 ∷ []))))
    × (verify_password derive "correct horse" (hash_password derive (255 ∷ 16 ∷ []) "correct horse")
        ≡ some true)
verify_password-hash_password_example =
    verify_password-hash_password derive (255 ∷ 16 ∷ []) "correct horse" "wrong" (omega arith)

abbrev ayesha : RegisterRequest
ayesha = record { full_name = "Ayesha"; msisdn = "0300-1234567"; password = "correct horse" }

abbrev requests : List (Request Salt)
requests =
    to_register "usr_1" salt 5 ayesha ∷ to_register "usr_2" salt 6 ayesha ∷ to_delete "usr_1" ∷ []

handle_all-IsTable_example :
    IsTable ascii (handle_all ascii "92" (hashing derive) plain requests [])
unfolding is_digit
handle_all-IsTable_example =
    handle_all-IsTable ascii "92" (hashing derive) plain (refl, refl, (refl, tt)) requests []
      (tt, tt)

typed : normalise ascii "92" (some "0300-1234567") ≡ ok "923001234567"
unfolding normalise normalise_digits digits_of is_digit to_international strip_zeros
    starts_with_zero check_length
typed = refl

dialled : normalise ascii "92" (some "+92 300 1234567") ≡ ok "923001234567"
unfolding normalise normalise_digits digits_of is_digit to_international strip_zeros
    starts_with_zero check_length
dialled = refl

abbrev secure : TokenIssuing Text
secure = issuing lettered (115 ∷ 51 ∷ [])

login-register_example :
    (after : List (User Text)) × (token : Text) × (register ascii "92"
        (hashing derive)
        secure
        "usr_1"
        salt
        5
        ayesha
        []
      ≡ (
        answer (record { user_id = "usr_1"; full_name = "Ayesha"; msisdn = "923001234567" }),
        after,
      ))
    × (login ascii "92"
          (hashing derive)
          secure
          9000
          3600
          (record { msisdn = "+92 300 1234567"; password = "correct horse" })
          after
        ≡ answer (record { access_token = token; expires_in_seconds = 3600; user_id = "usr_1" }))
    × (introspect ascii "92" (hashing derive) secure 10000 token after
        ≡ active "usr_1" "Ayesha" 3609)
    × (introspect ascii "92" (hashing derive) secure 10000 token (delete_user "usr_1" after)
        ≡ no_longer_exists)
unfolding valid_register violates_unique
login-register_example =
    login-register ascii "92" (hashing derive) secure "usr_1" salt 5 ayesha "923001234567" []
      "+92 300 1234567" 9000 3600 10000 refl typed refl refl dialled (omega arith)
