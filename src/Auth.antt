-- ===== src/Auth.antt =====
-- services/auth-service/app/main.py: the users and the handlers. A body that pydantic refuses is a
-- 422. The identifier that `uuid4` draws, the salt and the time are arguments of the handlers;
-- `normalise` is that of libs/mfcommon/mfcommon/identity/msisdn.py; traces and logs are output.
mod Tests
pub mod Sample
pub mod Passwords
pub mod Tokens
pub mod TokenParts
pub mod TokenRoundtrip
pub mod SampleCodec
mod TokenTests
pub mod Issuing
pub mod Users
pub mod Login
use microfinance_microservic.Common.{
  ℕ, ◌≡◌, String, Bool, true, false, not, ◌&&◌, ◌||◌, Option, none, some, List, [], ◌∷◌, ◌++◌,
  length, leb, ◌+◌, ◌*◌, ◌/◌, ◌≤◌, ◌==◌, HasEq-text, if◌then◌else◌,
}
use microfinance_microservic.Common.Text.{len}
use microfinance_microservic.Msisdn.{Normalised, ok, invalid, normalise}

-- libs/mfcommon/mfcommon/auth/passwords.py, as its clients use it
pub record PasswordHashing (H Salt : Type 0) : Type 0 where
  pub hash_password : Salt → String → H
  -- `none` for a stored hash that `bytes.fromhex` refuses
  pub verify_password : String → H → Option Bool
  pub verify_own :
      (salt : Salt) (password : String)
      → verify_password password (hash_password salt password) ≡ some true

pub record Claims : Type 0 where
  pub sub : Option String
  -- In seconds
  pub exp : ℕ

pub data TokenError : Type 0 where
  malformed bad_signature malformed_payload expired : TokenError

pub data Decoded : Type 0 where
  claims : Claims → Decoded
  token_error : TokenError → Decoded
  -- What nothing catches
  uncaught : Decoded

-- libs/mfcommon/mfcommon/auth/tokens.py with the secret, at a time in milliseconds
pub record TokenIssuing (T : Type 0) : Type 0 where
  pub create_token : ℕ → String → ℕ → T
  pub decode_token : ℕ → T → Decoded
  pub decode_own :
      (now lifetime later : ℕ) (sub : String)
      → later ≤ 1000 * (now / 1000 + lifetime)
      → decode_token later (create_token now sub lifetime)
        ≡ claims (record { sub = some sub; exp = now / 1000 + lifetime })

pub record User (H : Type 0) : Type 0 where
  pub user_id : String
  pub full_name : String
  pub msisdn : String
  pub password_hash : H
  pub created_at : ℕ

pub data Detail : Type 0 where
  validation_error bad_msisdn already_registered purge_disabled bad_credentials internal_error :
      Detail

pub data Reply (A : Type 0) : Type 0 where
  answer : A → Reply A
  http_error : ℕ → Detail → Reply A

pub record RegisterRequest : Type 0 where
  pub full_name : String
  pub msisdn : String
  pub password : String

pub record LoginRequest : Type 0 where
  pub msisdn : String
  pub password : String

pub record Registered : Type 0 where
  pub user_id : String
  pub full_name : String
  pub msisdn : String

pub record TokenResponse (T : Type 0) : Type 0 where
  pub access_token : T
  pub expires_in_seconds : ℕ
  pub user_id : String

pub data Introspection : Type 0 where
  active : (user_id full_name : String) → (expires_at : ℕ) → Introspection
  inactive : TokenError → Introspection
  no_longer_exists : Introspection
  server_error : Introspection

abbrev pub valid_msisdn_field : String → Bool
valid_msisdn_field s = leb 8 (len s) && leb (len s) 20

unfoldable pub valid_register : RegisterRequest → Bool
valid_register body =
    leb 1 (len body.full_name) && valid_msisdn_field body.msisdn && leb 8 (len body.password)

module _ {H : Type 0} where
  -- The PRIMARY KEY and the UNIQUE column of `users`
  unfoldable pub violates_unique : String → String → List (User H) → Bool
  violates_unique user_id msisdn [] = false
  violates_unique user_id msisdn (u ∷ users) =
      (u.user_id == user_id || u.msisdn == msisdn) || violates_unique user_id msisdn users

  -- SELECT ... FROM users WHERE msisdn = ?
  unfoldable pub find_msisdn : String → List (User H) → Option (User H)
  find_msisdn msisdn [] = none
  find_msisdn msisdn (u ∷ users) =
      let later = find_msisdn msisdn users in if u.msisdn == msisdn then some u else later

  -- SELECT ... FROM users WHERE user_id = ?
  unfoldable pub find_user : String → List (User H) → Option (User H)
  find_user user_id [] = none
  find_user user_id (u ∷ users) =
      let later = find_user user_id users in if u.user_id == user_id then some u else later

  -- `delete_user`, which answers the same whether or not there was such a user
  unfoldable pub delete_user : String → List (User H) → List (User H)
  delete_user user_id [] = []
  delete_user user_id (u ∷ users) =
      let later = delete_user user_id users in if u.user_id == user_id then later else u ∷ later

  -- `purge_users`, with ALLOW_AUTH_PURGE
  unfoldable pub purge_users : Bool → List (User H) → Reply ℕ × List (User H)
  purge_users true users = (answer (length users), [])
  purge_users false users = (http_error 403 purge_disabled, users)

-- The country code is DEFAULT_COUNTRY_CODE; `\d` outside ASCII is the parameter of `normalise`.
module _ {H Salt T : Type 0} (unicode_digit : ℕ → Bool) (country_code : String)
    (passwords : PasswordHashing H Salt) (tokens : TokenIssuing T) where
  -- INSERT INTO users
  abbrev pub insert_user : User H → List (User H) → Reply Registered × List (User H)
  insert_user u users =
      if violates_unique u.user_id u.msisdn users
      then (http_error 409 already_registered, users)
      else (
        answer (record { user_id = u.user_id; full_name = u.full_name; msisdn = u.msisdn }),
        users ++ u ∷ [],
      )

  abbrev pub register_normalised :
      String
      → Salt
      → ℕ
      → RegisterRequest
      → Normalised
      → List (User H)
      → Reply Registered × List (User H)
  register_normalised user_id salt now body (invalid e) users = (http_error 400 bad_msisdn, users)
  register_normalised user_id salt now body (ok msisdn) users =
      insert_user
        (record {
          user_id = user_id;
          full_name = body.full_name;
          msisdn = msisdn;
          password_hash = passwords.hash_password salt body.password;
          created_at = now;
        })
        users

  -- `register`
  unfoldable pub register :
      String → Salt → ℕ → RegisterRequest → List (User H) → Reply Registered × List (User H)
  unfolding valid_register violates_unique
  register user_id salt now body users =
      if valid_register body
      then register_normalised user_id salt now body
          (normalise unicode_digit country_code (some body.msisdn)) users
      else (http_error 422 validation_error, users)

  -- The answer is the same for a number that nobody has and for a wrong password.
  abbrev pub login_verified : ℕ → ℕ → User H → Option Bool → Reply (TokenResponse T)
  login_verified now lifetime u (some true) = answer (record {
    access_token = tokens.create_token now u.user_id lifetime;
    expires_in_seconds = lifetime;
    user_id = u.user_id;
  })
  login_verified now lifetime u (some false) = http_error 401 bad_credentials
  login_verified now lifetime u none = http_error 500 internal_error

  abbrev pub login_found : ℕ → ℕ → String → Option (User H) → Reply (TokenResponse T)
  login_found now lifetime password none = http_error 401 bad_credentials
  login_found now lifetime password (some u) =
      login_verified now lifetime u (passwords.verify_password password u.password_hash)

  abbrev pub login_normalised :
      ℕ → ℕ → String → Normalised → List (User H) → Reply (TokenResponse T)
  login_normalised now lifetime password (invalid e) users = http_error 400 bad_msisdn
  login_normalised now lifetime password (ok msisdn) users =
      login_found now lifetime password (find_msisdn msisdn users)

  -- `login`, with ACCESS_TOKEN_LIFETIME_SECONDS
  unfoldable pub login : ℕ → ℕ → LoginRequest → List (User H) → Reply (TokenResponse T)
  unfolding find_msisdn
  login now lifetime body users =
      if valid_msisdn_field body.msisdn
      then login_normalised now lifetime body.password
          (normalise unicode_digit country_code (some body.msisdn)) users
      else http_error 422 validation_error

  abbrev pub find_subject : Option String → List (User H) → Option (User H)
  find_subject none users = none
  find_subject (some sub) users = find_user sub users

  abbrev pub introspect_found : Claims → Option (User H) → Introspection
  introspect_found c none = no_longer_exists
  introspect_found c (some u) = active u.user_id u.full_name c.exp

  abbrev pub introspect_decoded : Decoded → List (User H) → Introspection
  introspect_decoded (token_error e) users = inactive e
  introspect_decoded (claims c) users = introspect_found c (find_subject c.sub users)
  introspect_decoded uncaught users = server_error

  -- `introspect`
  unfoldable pub introspect : ℕ → T → List (User H) → Introspection
  unfolding find_user
  introspect now token users = introspect_decoded (tokens.decode_token now token) users
