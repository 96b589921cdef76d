-- ===== src/Gateway/Register.antt =====
-- services/api-gateway/app/main.py: `register`, a saga over auth-service and ledger-service.
-- The calls are functions on a world `W`. A delete that compensates may fail; that is only logged, and
-- the answer is the same.
use microfinance_microservic.Common.{
  ℕ, String, Bool, ◌&&◌, Option, none, some, leb, nat_eq, if◌then◌else◌,
}
use microfinance_microservic.Common.Text.{len}

-- What the shared client makes of a call: an answer, a ServiceRejectedError, or a ServiceCallError,
-- which may have a status.
pub data Called (A : Type 0) : Type 0 where
  answered : A → Called A
  rejected : ℕ → Called A
  failed : Option ℕ → Called A

pub record RegisterRequest : Type 0 where
  pub full_name : String
  pub msisdn : String
  pub bind_card_number : String
  pub password : String

-- The bodies of the two calls
pub record UserBody : Type 0 where
  pub full_name : String
  pub msisdn : String
  pub password : String

pub record AccountBody : Type 0 where
  pub user_id : String
  pub card_number : String
  pub msisdn : Option String

-- The answer of auth-service, as far as it is read
pub record UserAnswer : Type 0 where
  pub user_id : String
  pub msisdn : Option String

pub record Success : Type 0 where
  pub user_id : String
  pub msisdn : Option String
  pub account_id : String

pub data Detail : Type 0 where
  validation_error auth_refused auth_unavailable no_account : Detail

pub data Reply (A : Type 0) : Type 0 where
  returned : A → Reply A
  raised : ℕ → Detail → Reply A

abbrev within : ℕ → ℕ → String → Bool
within lo hi s = leb lo (len s) && leb (len s) hi

unfoldable pub valid_register : RegisterRequest → Bool
valid_register body =
    within 8 20 body.msisdn && (within 12 19 body.bind_card_number && leb 8 (len body.password))

-- `getattr(exc, "status_code", 503) or 503`
abbrev or_503 : Option ℕ → ℕ
or_503 none = 503
or_503 (some status) = if nat_eq status 0 then 503 else status

module _ {W : Type 0} (create_user : UserBody → W → Called UserAnswer × W)
    (create_account : AccountBody → W → Called String × W)
    (delete_user : String → W → Called (Unit {0}) × W) where
  abbrev account_body : RegisterRequest → UserAnswer → AccountBody
  account_body body user = record {
    user_id = user.user_id;
    card_number = body.bind_card_number;
    msisdn = user.msisdn;
  }

  abbrev pub on_account : UserAnswer → Called String × W → Reply Success × W
  on_account user (answered account_id, w) = (
    returned (record { user_id = user.user_id; msisdn = user.msisdn; account_id = account_id }),
    w,
  )
  on_account user (rejected status, w) =
      (raised (or_503 (some status)) no_account, (delete_user user.user_id w).1)
  on_account user (failed status, w) =
      (raised (or_503 status) no_account, (delete_user user.user_id w).1)

  abbrev pub on_user : RegisterRequest → Called UserAnswer × W → Reply Success × W
  on_user body (answered user, w) = on_account user (create_account (account_body body user) w)
  on_user body (rejected status, w) = (raised status auth_refused, w)
  on_user body (failed status, w) = (raised 503 auth_unavailable, w)

  abbrev user_body : RegisterRequest → UserBody
  user_body body = record {
    full_name = body.full_name;
    msisdn = body.msisdn;
    password = body.password;
  }

  unfoldable pub register : RegisterRequest → W → Reply Success × W
  unfolding valid_register
  register body w =
      if valid_register body
      then on_user body (create_user (user_body body) w)
      else (raised 422 validation_error, w)
