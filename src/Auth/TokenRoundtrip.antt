-- ===== src/Auth/TokenRoundtrip.antt =====
-- Tokens that are made and decoded with one secret, and what a decoded token has been signed with.
use microfinance_microservic.Common.{◌==◌, HasEq-text}
use microfinance_microservic.Common.{
  ℕ, ◌+◌, ◌-◌, ◌*◌, ◌/◌, ◌%◌, ◌≤◌, ◌≡◌, refl, sym, ap, ◌∙◌, subst, String, Bool, true, false,
  Option, none, some, List, [], ◌∷◌, ◌++◌, append_assoc, ltb, if◌then◌else◌, length, replicate, All,
  arith,
}
use microfinance_microservic.Iso8583.Bcd.{Bytes, Text}
use microfinance_microservic.Auth.{expired}
use microfinance_microservic.Auth.Passwords.{same_text}
use microfinance_microservic.Auth.Tokens.{
  Claim, text, number, Payload, get_claim, put_claim, distinct_keys, Loaded, loaded, other_value,
  invalid, IsByte, IsSafe, Codec, rstrip_eq, split_dots, is_ascii, verified, refused, b64url_encode,
  b64url_decode, sign, payload_of, signing_input, create_token, decode_token, on_parts,
  on_signature, on_bytes, on_loaded, on_exp, header,
}
use microfinance_microservic.Auth.TokenParts.{
  rstrip_safe, fill_lem, safe_ascii, same_text_refl, same_text-eq, split_safe, split_dot, joined,
  joined-split_dots,
}

-- A payload has not expired at a time.
abbrev pub IsCurrent : ℕ → Option Claim → Type 0
IsCurrent now none = now ≤ 0
IsCurrent now (some (number exp)) = now ≤ 1000 * exp
IsCurrent now (some (text s)) = ⊥

verified_inj : {p q : Payload} → verified p ≡ verified q → p ≡ q
verified_inj e = cc

get_claim-put_claim :
    (key : String) (v : Claim) (payload : Payload)
    → get_claim key (put_claim key v payload) ≡ some v
unfolding get_claim put_claim
get_claim-put_claim key v [] = ground (arith, HasEq-text.test_iff key key)
get_claim-put_claim key v ((k, w) ∷ payload) = ground (
  arith,
  HasEq-text.test_iff k key,
  HasEq-text.test_iff key key,
  get_claim-put_claim key v payload,
)

get_claim-put_other :
    (key other : String) (v : Claim) (payload : Payload)
    → other == key ≡ false
    → get_claim key (put_claim other v payload) ≡ get_claim key payload
unfolding get_claim put_claim
get_claim-put_other key other v [] e = rw e refl
get_claim-put_other key other v ((k, w) ∷ payload) e = ground (
  arith,
  HasEq-text.test_iff k key,
  HasEq-text.test_iff k other,
  HasEq-text.test_iff other key,
  get_claim-put_other key other v payload,
)

module _ (codec : Codec) where
  b64url-IsSafe : (bytes : Bytes) → All IsByte bytes → All IsSafe (b64url_encode codec bytes)
  unfolding b64url_encode
  b64url-IsSafe bytes h =
      let (body, k, e, safe, most, size) = codec.b64_padded bytes h in
      rw (e, rstrip_safe body k safe) safe

  b64url_again :
      (bytes : Bytes)
      → All IsByte bytes
      → b64url_decode codec (b64url_encode codec bytes) ≡ some bytes
  unfolding b64url_encode b64url_decode
  b64url_again bytes h =
      let (body, k, e, safe, most, size) = codec.b64_padded bytes h in
      let stripped : rstrip_eq (codec.b64encode bytes) ≡ body =
        ap rstrip_eq e ∙ rstrip_safe body k safe in
      let filled : body ++ replicate ((4 - length body % 4) % 4) 61 ≡ codec.b64encode bytes =
        ap (λ n. body ++ replicate n 61) (fill_lem (length body) k most size) ∙ sym e in
      ap (λ s. codec.b64decode (s ++ replicate ((4 - length s % 4) % 4) 61)) stripped
      ∙ ap codec.b64decode filled
      ∙ codec.b64_again bytes h

  sign-IsSafe : (message secret : Text) → All IsSafe (sign codec message secret)
  unfolding sign
  sign-IsSafe message secret =
      b64url-IsSafe (codec.digest secret message) (codec.digest_bytes secret message)

  split_three :
      (h p s : Text)
      → All IsSafe h
      → All IsSafe p
      → All IsSafe s
      → split_dots ((h ++ 46 ∷ p) ++ 46 ∷ s) ≡ h ∷ p ∷ s ∷ []
  split_three h p s hh hp hs =
      ap split_dots (append_assoc h (46 ∷ p) (46 ∷ s))
      ∙ split_dot h (p ++ 46 ∷ s) hh
      ∙ ap (λ parts. h ∷ parts) (split_dot p s hp ∙ ap (λ parts. p ∷ parts) (split_safe s hs))

  exp_stays :
      (now after lifetime : ℕ) (claims : Payload)
      → get_claim "exp" (payload_of codec now after claims lifetime)
        ≡ some (number (now / 1000 + lifetime))
  exp_stays now after lifetime claims =
      get_claim-put_other "exp" "iat" (number (after / 1000))
        (put_claim "exp" (number (now / 1000 + lifetime)) claims) refl
      ∙ get_claim-put_claim "exp" (number (now / 1000 + lifetime)) claims

  -- A token decodes, with the secret it was made with, to the claims, the time of expiry and that of issue,
  -- until the time of expiry, and is refused as expired after it. The keys of the payload are distinct.
  pub decode_token-create_token :
      (now after later lifetime : ℕ) (claims : Payload) (secret : Text)
      → distinct_keys (payload_of codec now after claims lifetime) ≡ true
      → decode_token codec later (create_token codec now after claims secret lifetime) secret ≡ (
          if ltb (1000 * (now / 1000 + lifetime)) later
          then refused expired
          else verified (payload_of codec now after claims lifetime))
  unfolding decode_token create_token
  decode_token-create_token now after later lifetime claims secret distinct =
      let payload : Payload = payload_of codec now after claims lifetime in
      let h : Text = b64url_encode codec (codec.dumps header) in
      let p : Text = b64url_encode codec (codec.dumps payload) in
      let s : Text = sign codec (signing_input codec h p) secret in
      let bytes = codec.dumps_bytes payload in
      let safe = sign-IsSafe (signing_input codec h p) secret in
      ap (on_parts codec later secret) (
        split_three h p s (b64url-IsSafe (codec.dumps header) (codec.dumps_bytes header))
          (b64url-IsSafe (codec.dumps payload) bytes) safe)
      ∙ ap (λ b. on_signature codec later p b (same_text s s)) (safe_ascii s safe)
      ∙ ap (on_signature codec later p true) (same_text_refl s)
      ∙ ap (on_bytes codec later) (b64url_again (codec.dumps payload) bytes)
      ∙ ap (on_loaded codec later) (codec.dumps_again payload distinct)
      ∙ ap (on_exp codec later payload) (exp_stays now after lifetime claims)

  on_exp_sound :
      (now : ℕ) (p payload : Payload) (o : Option Claim)
      → on_exp codec now p o ≡ verified payload
      → (p ≡ payload) × IsCurrent now o
  on_exp_sound now p payload none h = ground (arith, h)
  on_exp_sound now p payload (some (number exp)) h = ground (arith, h)
  on_exp_sound now p payload (some (text s)) h = cc

  on_loaded_sound :
      (now : ℕ) (payload : Payload) (o : Loaded)
      → on_loaded codec now o ≡ verified payload
      → (o ≡ loaded payload) × IsCurrent now (get_claim "exp" payload)
  on_loaded_sound now payload (loaded p) h =
      let (e, current) = on_exp_sound now p payload (get_claim "exp" p) h in
      (ap loaded e, subst (λ q. IsCurrent now (get_claim "exp" q)) e current)
  on_loaded_sound now payload other_value h = cc
  on_loaded_sound now payload invalid h = cc

  -- The payload is what the bytes of a text in base64 are loaded as.
  abbrev pub IsLoaded : Option Bytes → Payload → Type 0
  IsLoaded o payload = (bytes : Bytes) × (o ≡ some bytes) × (codec.loads bytes ≡ loaded payload)

  on_bytes_sound :
      (now : ℕ) (payload : Payload) (o : Option Bytes)
      → on_bytes codec now o ≡ verified payload
      → IsLoaded o payload × IsCurrent now (get_claim "exp" payload)
  on_bytes_sound now payload none h = cc
  on_bytes_sound now payload (some bytes) h =
      let (e, current) = on_loaded_sound now payload (codec.loads bytes) h in
      ((bytes, refl, e), current)

  on_signature_sound :
      (now : ℕ) (p : Text) (payload : Payload) (ascii same : Bool)
      → on_signature codec now p ascii same ≡ verified payload
      → (same ≡ true)
        × IsLoaded (b64url_decode codec p) payload
        × IsCurrent now (get_claim "exp" payload)
  on_signature_sound now p payload false same h = cc
  on_signature_sound now p payload true false h = cc
  on_signature_sound now p payload true true h =
      let (holds, current) = on_bytes_sound now payload (b64url_decode codec p) h in
      (refl, holds, current)

  -- What a token has been signed with, if it decodes
  abbrev pub IsSigned : ℕ → Text → Payload → List Text → Type 0
  IsSigned now secret payload parts =
      (h : Text) × (p : Text) × (parts ≡ h ∷ p ∷ sign codec (signing_input codec h p) secret ∷ [])
      × IsLoaded (b64url_decode codec p) payload
      × IsCurrent now (get_claim "exp" payload)

  on_parts_sound :
      (now : ℕ) (secret : Text) (payload : Payload) (parts : List Text)
      → on_parts codec now secret parts ≡ verified payload
      → IsSigned now secret payload parts
  on_parts_sound now secret payload [] h = cc
  on_parts_sound now secret payload (a ∷ []) h = cc
  on_parts_sound now secret payload (a ∷ b ∷ []) h = cc
  on_parts_sound now secret payload (a ∷ b ∷ s ∷ []) h =
      let (same, holds, current) =
        on_signature_sound now b payload (is_ascii s)
          (same_text (sign codec (signing_input codec a b) secret) s) h in
      let e = same_text-eq (sign codec (signing_input codec a b) secret) s same in
      (a, b, ap (λ t. a ∷ b ∷ t ∷ []) (sym e), holds, current)
  on_parts_sound now secret payload (a ∷ b ∷ s ∷ d ∷ parts) h = cc

  -- Whatever text is presented, if it decodes then it is a header and a payload with their own signature by
  -- the secret, what it decodes to is loaded from that payload, and the time of expiry in it has not
  -- passed.
  pub decode_token_sound :
      (now : ℕ) (token secret : Text) (payload : Payload)
      → decode_token codec now token secret ≡ verified payload
      → (h : Text) × (p : Text) × (token
          ≡ h ++ 46 ∷ p ++ 46 ∷ sign codec (signing_input codec h p) secret)
        × IsLoaded (b64url_decode codec p) payload
        × IsCurrent now (get_claim "exp" payload)
  unfolding decode_token joined
  decode_token_sound now token secret payload e =
      let (h, p, parts, holds, current) = on_parts_sound now secret payload (split_dots token) e in
      (
        h,
        p,
        sym (joined-split_dots token)
            ∙ ap joined parts
            ∙ sym (append_assoc h (46 ∷ p) (46 ∷ sign codec (signing_input codec h p) secret)),
        holds,
        current,
      )
