-- ===== src/Auth/Sample.antt =====
-- Arguments for runs of auth-service: a key derivation, tokens that are their claims, a salt, and no
-- digit outside ASCII.
use microfinance_microservic.Common.{
  ℕ, ◌+◌, ◌*◌, ◌/◌, ◌<◌, ◌≤◌, ◌≡◌, String, Bool, false, some, [], ◌∷◌, All, leb, if◌then◌else◌,
  arith,
}
use microfinance_microservic.Common.Text.{len}
use microfinance_microservic.Iso8583.Bcd.{Bytes}
use microfinance_microservic.Auth.{TokenIssuing, Claims, Decoded, claims, token_error, expired}

abbrev pub ascii : ℕ → Bool
ascii c = false

abbrev pub derive : String → Bytes → Bytes
derive password salt = len password ∷ salt

-- Tokens that are their claims.
abbrev pub read_claims : ℕ → Claims → Decoded
read_claims now c = if leb now (1000 * c.exp) then claims c else token_error expired

pub plain_own :
    (now lifetime later : ℕ) (sub : String)
    → later ≤ 1000 * (now / 1000 + lifetime)
    → read_claims later (record { sub = some sub; exp = now / 1000 + lifetime })
      ≡ claims (record { sub = some sub; exp = now / 1000 + lifetime })
plain_own now lifetime later sub h = ground arith

abbrev pub plain : TokenIssuing Claims
plain = record {
  create_token = λ now sub lifetime. record { sub = some sub; exp = now / 1000 + lifetime };
  decode_token = read_claims;
  decode_own = plain_own;
}

abbrev pub Salt : Type 0
Salt = (salt : Bytes) × All (λ b. b < 256) salt

abbrev pub salt : Salt
salt = (255 ∷ 16 ∷ [], (omega arith, (omega arith, tt)))
