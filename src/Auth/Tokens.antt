-- ===== src/Auth/Tokens.antt =====
-- libs/mfcommon/mfcommon/auth/tokens.py. Texts and bytes are lists of numbers. What the source takes of
-- base64, json, hmac and hashlib is the record `Codec`; times are in milliseconds, and `int` of one is
-- its seconds. A value of a payload is a text or a natural number.
use microfinance_microservic.Common.{
  ℕ, ◌+◌, ◌-◌, ◌*◌, ◌/◌, ◌%◌, ◌≤◌, ◌<◌, ◌≡◌, String, Bool, true, false, not, ◌&&◌, Option, none,
  some, List, [], ◌∷◌, ◌++◌, ltb, nat_eq, ◌==◌, HasEq-text, if◌then◌else◌, length, replicate, All,
}
use microfinance_microservic.Iso8583.Bcd.{Bytes, Text}
use microfinance_microservic.Auth.{TokenError, malformed, bad_signature, malformed_payload, expired}
use microfinance_microservic.Auth.Passwords.{same_text}

pub data Claim : Type 0 where
  text : String → Claim
  number : ℕ → Claim

abbrev pub Payload : Type 0
Payload = List (String × Claim)

-- `payload[key] = value`
unfoldable pub put_claim : String → Claim → Payload → Payload
put_claim key value [] = (key, value) ∷ []
put_claim key value ((k, v) ∷ payload) =
    let later = put_claim key value payload in
    if k == key then (k, value) ∷ payload else (k, v) ∷ later

-- `payload.get(key)`
unfoldable pub get_claim : String → Payload → Option Claim
get_claim key [] = none
get_claim key ((k, v) ∷ payload) =
    let later = get_claim key payload in if k == key then some v else later

abbrev has_key : String → Payload → Bool
has_key key [] = false
has_key key ((k, v) ∷ payload) = if k == key then true else has_key key payload

-- No key stands twice.
abbrev pub distinct_keys : Payload → Bool
distinct_keys [] = true
distinct_keys ((k, v) ∷ payload) = not (has_key k payload) && distinct_keys payload

-- What `json.loads` gives: an object, another value, or what it raises
pub data Loaded : Type 0 where
  loaded : Payload → Loaded
  other_value : Loaded
  invalid : Loaded

abbrev pub IsByte : ℕ → Type 0
IsByte b = b < 256

-- A character of ASCII that is neither `=` nor a full stop
abbrev pub IsSafe : ℕ → Type 0
IsSafe c = (c < 128) × (nat_eq c 61 ≡ false) × (nat_eq c 46 ≡ false)

-- A text in base64: safe characters, filled up with at most two `=` to a multiple of four
abbrev pub IsPadded : Text → Type 0
IsPadded s =
    (body : Text) × (k : ℕ) × (s ≡ body ++ replicate k 61)
    × All IsSafe body
    × (k ≤ 2)
    × ((length body + k) % 4 ≡ 0)

-- `base64.urlsafe_b64encode` and `urlsafe_b64decode`, `json.dumps` with its encoding and `json.loads`,
-- and the digest of HMAC-SHA256 by a secret
pub record Codec : Type 0 where
  pub b64encode : Bytes → Text
  pub b64decode : Text → Option Bytes
  pub b64_padded : (bytes : Bytes) → All IsByte bytes → IsPadded (b64encode bytes)
  pub b64_again : (bytes : Bytes) → All IsByte bytes → b64decode (b64encode bytes) ≡ some bytes
  pub dumps : Payload → Bytes
  pub loads : Bytes → Loaded
  pub dumps_bytes : (payload : Payload) → All IsByte (dumps payload)
  pub dumps_again :
      (payload : Payload) → distinct_keys payload ≡ true → loads (dumps payload) ≡ loaded payload
  pub digest : Text → Text → Bytes
  pub digest_bytes : (secret message : Text) → All IsByte (digest secret message)

abbrev pub kept : ℕ → Text → Text
kept c [] = if nat_eq c 61 then [] else c ∷ []
kept c (d ∷ s) = c ∷ d ∷ s

-- `rstrip(b"=")`
unfoldable pub rstrip_eq : Text → Text
rstrip_eq [] = []
rstrip_eq (c ∷ s) = kept c (rstrip_eq s)

abbrev pub cons_first : ℕ → List Text → List Text
cons_first c [] = (c ∷ []) ∷ []
cons_first c (part ∷ parts) = (c ∷ part) ∷ parts

-- `token.split(".")`
unfoldable pub split_dots : Text → List Text
split_dots [] = [] ∷ []
split_dots (c ∷ s) =
    let parts = split_dots s in if nat_eq c 46 then [] ∷ parts else cons_first c parts

abbrev pub is_ascii : Text → Bool
is_ascii [] = true
is_ascii (c ∷ s) = ltb c 128 && is_ascii s

-- What `decode_token` returns, or raises: a `TokenError`, or what nothing in it catches
pub data Verified : Type 0 where
  verified : Payload → Verified
  refused : TokenError → Verified
  uncaught : Verified

abbrev pub header : Payload
header = ("alg", text "HS256") ∷ ("typ", text "JWT") ∷ []

module _ (codec : Codec) where
  -- `_b64url_encode`
  unfoldable pub b64url_encode : Bytes → Text
  unfolding rstrip_eq
  b64url_encode bytes = rstrip_eq (codec.b64encode bytes)

  -- `_b64url_decode`
  unfoldable pub b64url_decode : Text → Option Bytes
  b64url_decode s = codec.b64decode (s ++ replicate ((4 - length s % 4) % 4) 61)

  -- `_sign`
  unfoldable pub sign : Text → Text → Text
  unfolding b64url_encode
  sign message secret = b64url_encode (codec.digest secret message)

  abbrev pub payload_of : ℕ → ℕ → Payload → ℕ → Payload
  payload_of now after claims lifetime =
      put_claim "iat" (number (after / 1000))
        (put_claim "exp" (number (now / 1000 + lifetime)) claims)

  abbrev pub signing_input : Text → Text → Text
  signing_input header_b64 payload_b64 = header_b64 ++ 46 ∷ payload_b64

  abbrev signed : Text → Text → Text
  signed input secret = input ++ 46 ∷ sign input secret

  -- `create_token`, which reads the clock twice
  unfoldable pub create_token : ℕ → ℕ → Payload → Text → ℕ → Text
  unfolding put_claim b64url_encode sign
  create_token now after claims secret lifetime =
      signed
        (signing_input (b64url_encode (codec.dumps header))
          (b64url_encode (codec.dumps (payload_of now after claims lifetime))))
        secret

  abbrev pub on_exp : ℕ → Payload → Option Claim → Verified
  on_exp now payload none = if ltb 0 now then refused expired else verified payload
  on_exp now payload (some (number exp)) =
      if ltb (1000 * exp) now then refused expired else verified payload
  on_exp now payload (some (text s)) = uncaught

  abbrev pub on_loaded : ℕ → Loaded → Verified
  on_loaded now (loaded payload) = on_exp now payload (get_claim "exp" payload)
  on_loaded now other_value = uncaught
  on_loaded now invalid = refused malformed_payload

  abbrev pub on_bytes : ℕ → Option Bytes → Verified
  on_bytes now none = refused malformed_payload
  on_bytes now (some bytes) = on_loaded now (codec.loads bytes)

  -- `hmac.compare_digest` takes no text beyond ASCII.
  abbrev pub on_signature : ℕ → Text → Bool → Bool → Verified
  on_signature now payload_b64 false same = uncaught
  on_signature now payload_b64 true false = refused bad_signature
  on_signature now payload_b64 true true = on_bytes now (b64url_decode payload_b64)

  abbrev pub on_parts : ℕ → Text → List Text → Verified
  on_parts now secret (header_b64 ∷ payload_b64 ∷ signature_b64 ∷ []) =
      on_signature now payload_b64 (is_ascii signature_b64)
        (same_text (sign (signing_input header_b64 payload_b64) secret) signature_b64)
  on_parts now secret _ = refused malformed

  unfoldable pub decode_token : ℕ → Text → Text → Verified
  unfolding get_claim b64url_decode sign same_text split_dots
  decode_token now token secret = on_parts now secret (split_dots token)
