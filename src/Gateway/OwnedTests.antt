-- ===== src/Gateway/OwnedTests.antt =====
-- A balance that its owner asks for, and one that another user asks for.
use microfinance_microservic.Common.{
  ℕ, suc, ◌≡◌, refl, String, some, [], ◌∷◌, ◌++◌, ◌==◌, HasEq-text, if◌then◌else◌, ap,
}
use microfinance_microservic.Iso8583.Bcd.{Text}
use microfinance_microservic.Auth.Passwords.{same_text}
use microfinance_microservic.Auth.SampleCodec.{lettered}
use microfinance_microservic.Auth.Tokens.{
  Claim, text, get_claim, put_claim, create_token, decode_token, sign, split_dots, rstrip_eq,
  b64url_encode, b64url_decode,
}
use microfinance_microservic.Gateway.Register.{Called, answered, rejected}
use microfinance_microservic.Gateway.Identity.{
  Reason, returned, raised, bearer, strip, lstrip, current_user, Party, balance,
}
use microfinance_microservic.Iso8583.Fields.{rstrip}
use microfinance_microservic.Gateway.Owned.{IsBearer, balance_owned}

abbrev secret : Text
secret = 115 ∷ 51 ∷ []

abbrev header_of : String → Text
header_of user = bearer ++ create_token lettered 9000 9004 (("sub", text user) ∷ []) secret 3600

-- Each call adds one to the world.
abbrev resolve : String → ℕ → Called Party × ℕ
resolve identifier n =
    if identifier == "acc_1"
    then (answered (record { account_id = "acc_1"; user_id = some "usr_1" }), suc n)
    else (rejected 404, suc n)

abbrev balance_of : String → ℕ → Called ℕ × ℕ
balance_of account n = (answered 50000, suc n)

abbrev accounts_of : Claim → ℕ → Called ℕ × ℕ
accounts_of user n = (answered 1, suc n)

abbrev log_in : String → String → ℕ → Called ℕ × ℕ
log_in msisdn password n = (rejected 401, n)

asked :
    balance resolve balance_of accounts_of log_in lettered secret 10000
      (some (header_of "usr_1"))
      "acc_1"
      0
    ≡ (returned 50000, 2)
unfolding get_claim put_claim sign split_dots rstrip_eq b64url_encode b64url_decode same_text
    create_token decode_token rstrip lstrip strip current_user balance
asked = refl

foreign :
    balance resolve balance_of accounts_of log_in lettered secret 10000
      (some (header_of "usr_2"))
      "acc_1"
      0
    ≡ (raised 403 Reason.not_owner, 1)
unfolding get_claim put_claim sign split_dots rstrip_eq b64url_encode b64url_decode same_text
    create_token decode_token rstrip lstrip strip current_user balance
foreign = refl

balance_owned_example :
    (u : String) × (party : Party) × IsBearer lettered secret 10000
      (some (header_of "usr_1"))
      (text u)
    × ((resolve "acc_1" 0).0 ≡ answered party)
    × (party.user_id ≡ some u)
    × ((balance_of party.account_id (resolve "acc_1" 0).1).0 ≡ answered 50000)
balance_owned_example =
    balance_owned resolve balance_of accounts_of log_in lettered secret 10000
      (some (header_of "usr_1")) "acc_1" 0 50000 (ap (λ r. r.0) asked)
