-- ===== src/Auth/Issuing.antt =====
-- The tokens of libs/mfcommon/mfcommon/auth/tokens.py with a secret, as auth-service uses them.
use microfinance_microservic.Common.{
  ℕ, ◌+◌, ◌*◌, ◌/◌, ◌≤◌, ◌≡◌, refl, ap, ◌∙◌, String, Option, none, some, [], ◌∷◌, ltb, false,
  if◌then◌else◌, arith,
}
use microfinance_microservic.Iso8583.Bcd.{Text}
use microfinance_microservic.Auth.{TokenIssuing, TokenError, Decoded, claims, token_error}
use microfinance_microservic.Auth.Tokens.{
  Claim, text, number, get_claim, put_claim, Codec, Verified, verified, refused, uncaught,
  payload_of, create_token, decode_token,
}
use microfinance_microservic.Auth.TokenRoundtrip.{decode_token-create_token}

-- `claims.get("sub")` where it is a text, and `claims.get("exp")` where it is a number
abbrev sub_of : Option Claim → Option String
sub_of (some (text sub)) = some sub
sub_of _ = none

abbrev exp_of : Option Claim → ℕ
exp_of (some (number exp)) = exp
exp_of _ = 0

abbrev decoded : Verified → Decoded
decoded (verified payload) =
    claims
      (record { sub = sub_of (get_claim "sub" payload); exp = exp_of (get_claim "exp" payload) })
decoded (refused e) = token_error e
decoded uncaught = Decoded.uncaught

in_time : (exp later : ℕ) → later ≤ 1000 * exp → ltb (1000 * exp) later ≡ false
in_time exp later h = ground arith

module _ (codec : Codec) (secret : Text) where
  -- A token that auth-service makes decodes to its subject and its time of expiry until that time.
  pub decoded-created :
      (now lifetime later : ℕ) (sub : String)
      → later ≤ 1000 * (now / 1000 + lifetime)
      → decoded (
          decode_token codec later
            (create_token codec now now (("sub", text sub) ∷ []) secret lifetime)
            secret)
        ≡ claims (record { sub = some sub; exp = now / 1000 + lifetime })
  unfolding put_claim get_claim
  decoded-created now lifetime later sub h =
      ap decoded (
        decode_token-create_token codec now now later lifetime (("sub", text sub) ∷ []) secret refl)
      ∙ ap decoded (
          ap
            (λ late.
              if late
              then refused TokenError.expired
              else verified (payload_of codec now now (("sub", text sub) ∷ []) lifetime))
            (in_time (now / 1000 + lifetime) later h))

  abbrev pub issuing : TokenIssuing Text
  issuing = record {
    create_token =
        λ now sub lifetime. create_token codec now now (("sub", text sub) ∷ []) secret lifetime;
    decode_token = λ later token. decoded (decode_token codec later token secret);
    decode_own = decoded-created;
  }
