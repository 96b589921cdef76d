-- ===== src/Auth/TokenTests.antt =====
-- Runs of the tokens, and instances of their theorems.
use microfinance_microservic.Common.{◌≡◌, refl, ◌++◌, [], ◌∷◌}
use microfinance_microservic.Iso8583.Bcd.{Text}
use microfinance_microservic.Auth.{TokenError}
use microfinance_microservic.Auth.Tokens.{
  text, number, get_claim, put_claim, create_token, decode_token, verified, refused, sign,
  signing_input, split_dots, rstrip_eq, b64url_encode, b64url_decode,
}
use microfinance_microservic.Auth.Passwords.{same_text}
use microfinance_microservic.Auth.TokenRoundtrip.{
  IsCurrent, IsLoaded, decode_token-create_token, decode_token_sound,
}
use microfinance_microservic.Auth.SampleCodec.{lettered}

abbrev secret : Text
secret = 115 ∷ 51 ∷ []

abbrev other_secret : Text
other_secret = 116 ∷ []

abbrev token : Text
token = create_token lettered 9000 9004 (("sub", text "u1") ∷ []) secret 3600

decode_token-create_token_example :
    (decode_token lettered 10000 token secret
      ≡ verified (("sub", text "u1") ∷ ("exp", number 3609) ∷ ("iat", number 9) ∷ []))
    × (decode_token lettered 3609001 token secret ≡ refused TokenError.expired)
unfolding put_claim
decode_token-create_token_example = (
  decode_token-create_token lettered 9000 9004 10000 3600 (("sub", text "u1") ∷ []) secret refl,
  decode_token-create_token lettered 9000 9004 3609001 3600 (("sub", text "u1") ∷ []) secret refl,
)

decodes :
    decode_token lettered 10000 token secret
    ≡ verified (("sub", text "u1") ∷ ("exp", number 3609) ∷ ("iat", number 9) ∷ [])
unfolding put_claim
decodes =
    decode_token-create_token lettered 9000 9004 10000 3600 (("sub", text "u1") ∷ []) secret refl

elsewhere : decode_token lettered 10000 token other_secret ≡ refused TokenError.bad_signature
unfolding get_claim put_claim sign split_dots rstrip_eq b64url_encode b64url_decode same_text
    create_token decode_token
elsewhere = refl

decode_token_sound_run :
    (h : Text) × (p : Text) × (token
      ≡ h ++ 46 ∷ p ++ 46 ∷ sign lettered (signing_input lettered h p) secret)
    × IsLoaded lettered
        (b64url_decode lettered p)
        ((("sub", text "u1") ∷ ("exp", number 3609) ∷ ("iat", number 9) ∷ []))
    × IsCurrent 10000
        (get_claim "exp" (("sub", text "u1") ∷ ("exp", number 3609) ∷ ("iat", number 9) ∷ []))
decode_token_sound_run =
    decode_token_sound lettered 10000 token secret
      (("sub", text "u1") ∷ ("exp", number 3609) ∷ ("iat", number 9) ∷ []) decodes
