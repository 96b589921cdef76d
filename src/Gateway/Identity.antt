-- ===== src/Gateway/Identity.antt =====
-- services/api-gateway/app/main.py: `current_user`, `login`, `whoami` and `balance`. The header is a list
-- of code points of latin-1, as it arrives; the calls are functions on a world `W`.
use microfinance_microservic.Common.{
  ℕ, String, Bool, false, not, Option, none, some, [], ◌∷◌, nat_eq, ◌==◌, HasEq-text, option_eq,
  if◌then◌else◌, take, drop,
}
use microfinance_microservic.Iso8583.Bcd.{Text}
use microfinance_microservic.Iso8583.Fields.{is_white, rstrip}
use microfinance_microservic.Auth.{TokenError}
use microfinance_microservic.Auth.Passwords.{same_text}
use microfinance_microservic.Auth.Tokens.{
  Claim, text, number, get_claim, Codec, Verified, verified, refused, uncaught, decode_token,
}
use microfinance_microservic.Gateway.Register.{Called, answered, rejected, failed}

pub data Reason : Type 0 where
  no_header no_subject not_owner unavailable refused_downstream unhandled : Reason
  bad_token : TokenError → Reason

pub data Reply (A : Type 0) : Type 0 where
  returned : A → Reply A
  raised : ℕ → Reason → Reply A

-- "Bearer "
abbrev pub bearer : Text
bearer = 66 ∷ 101 ∷ 97 ∷ 114 ∷ 101 ∷ 114 ∷ 32 ∷ []

unfoldable pub lstrip : Text → Text
lstrip [] = []
lstrip (c ∷ s) = let later = lstrip s in if is_white c then later else c ∷ s

unfoldable pub strip : Text → Text
unfolding lstrip rstrip
strip s = lstrip (rstrip s)

-- `not user_id`
abbrev pub is_subject : Claim → Bool
is_subject (text s) = not (s == "")
is_subject (number n) = not (nat_eq n 0)

abbrev pub subject_of : Option Claim → Reply Claim
subject_of none = raised 401 no_subject
subject_of (some claim) = if is_subject claim then returned claim else raised 401 no_subject

abbrev pub user_of : Verified → Reply Claim
user_of (refused e) = raised 401 (bad_token e)
user_of uncaught = raised 500 unhandled
user_of (verified payload) = subject_of (get_claim "sub" payload)

abbrev pub token_of : Text → Text
token_of header = strip (drop 7 header)

module _ (codec : Codec) (secret : Text) where
  -- The user that a request is made by, or the 401
  unfoldable pub current_user : ℕ → Option Text → Reply Claim
  unfolding get_claim decode_token same_text strip
  current_user now none = raised 401 no_header
  current_user now (some header) =
      if same_text (take 7 header) bearer
      then user_of (decode_token codec now (token_of header) secret)
      else raised 401 no_header

-- What is answered by `resolve`, as far as it is read
pub record Party : Type 0 where
  pub account_id : String
  pub user_id : Option String

-- `resolved.get("user_id") != user["user_id"]`, which a text and a number always are
abbrev pub is_owner : Option String → Claim → Bool
is_owner owner (text user) = option_eq owner (some user)
is_owner owner (number n) = false

abbrev pub failed_with : {A : Type 0} → Called A → Reply A
failed_with (answered a) = returned a
failed_with (rejected status) = raised status refused_downstream
failed_with (failed status) = raised 503 unavailable

abbrev pub bind : {A B W : Type 0} → Reply A → W → (A → Reply B × W) → Reply B × W
bind (returned a) w f = f a
bind (raised status why) w f = (raised status why, w)

-- Only a `ServiceCallError` is caught after the owner has been checked.
abbrev pub balance_reply : {Balance : Type 0} → Called Balance → Reply Balance
balance_reply (answered b) = returned b
balance_reply (rejected status) = raised 500 unhandled
balance_reply (failed status) = raised 503 unavailable

module _ {W Balance Accounts Session : Type 0} (resolve : String → W → Called Party × W)
    (balance_of : String → W → Called Balance × W) (accounts_of : Claim → W → Called Accounts × W)
    (log_in : String → String → W → Called Session × W) (codec : Codec) (secret : Text) where
  unfoldable pub login : String → String → W → Reply Session × W
  login msisdn password w = let (r, w') = log_in msisdn password w in (failed_with r, w')

  -- The `user_id` of the caller, and their accounts
  unfoldable pub whoami : ℕ → Option Text → W → Reply (Claim × Accounts) × W
  unfolding current_user
  whoami now authorization w = bind (current_user codec secret now authorization) w (λ user.
      let (r, w') = accounts_of user w in
      bind (failed_with r) w' (λ accounts. (returned (user, accounts), w')))

  abbrev pub balance_resolved : Claim → Party → W → Reply Balance × W
  balance_resolved user party w =
      let (r, w') = balance_of party.account_id w in
      if is_owner party.user_id user then (balance_reply r, w') else (raised 403 not_owner, w)

  unfoldable pub balance : ℕ → Option Text → String → W → Reply Balance × W
  unfolding current_user
  balance now authorization identifier w =
      bind (current_user codec secret now authorization) w (λ user.
        let (r, w') = resolve identifier w in
        bind (failed_with r) w' (λ party. balance_resolved user party w'))
