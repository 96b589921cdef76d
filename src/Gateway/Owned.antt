-- ===== src/Gateway/Owned.antt =====
-- Whose balance a caller is told.
use microfinance_microservic.Common.{
  ℕ, ◌≡◌, refl, String, true, Option, none, some, ◌∷◌, ◌++◌, arith, Bool-cases, inl, inr, take,
  option_eq_iff, subst, HasEq-text,
}
use microfinance_microservic.Iso8583.Bcd.{Text}
use microfinance_microservic.Auth.Passwords.{same_text}
use microfinance_microservic.Auth.Tokens.{
  Claim, text, number, Payload, get_claim, Codec, Verified, verified, refused, uncaught,
  decode_token, b64url_decode, sign, signing_input,
}
use microfinance_microservic.Auth.TokenRoundtrip.{IsCurrent, IsLoaded, decode_token_sound}
use microfinance_microservic.Gateway.Register.{Called, answered, rejected, failed}
use microfinance_microservic.Gateway.Identity.{
  Reply, Reason, returned, raised, bearer, is_subject, subject_of, user_of, token_of, current_user,
  Party, is_owner, failed_with, bind, balance_reply, balance_resolved, balance,
}

bind-returned :
    {A B W : Type 0} (m : Reply A) (w : W) (f : A → Reply B × W) (b : B)
    → (bind m w f).0 ≡ returned b
    → (a : A) × (m ≡ returned a) × ((f a).0 ≡ returned b)
bind-returned (returned a) w f b h = (a, refl, h)
bind-returned (raised status why) w f b h = cc

failed_with-returned :
    {A : Type 0} (r : Called A) (a : A) → failed_with r ≡ returned a → r ≡ answered a
failed_with-returned (answered x) a h = cc
failed_with-returned (rejected status) a h = cc
failed_with-returned (failed status) a h = cc

subject_of-returned :
    (o : Option Claim) (user : Claim) → subject_of o ≡ returned user → o ≡ some user
subject_of-returned none user h = cc
subject_of-returned (some claim) user h = elim (Bool-cases (is_subject claim)) [
  | inl yes_subject ↦ let e : returned claim ≡ returned user = rw yes_subject at h in cc
  | inr no_subject ↦
      let e : subject_of (some claim) ≡ returned user = h in ground (arith, no_subject, e)
]

user_of-returned :
    (v : Verified) (user : Claim)
    → user_of v ≡ returned user
    → (payload : Payload) × (v ≡ verified payload) × (get_claim "sub" payload ≡ some user)
user_of-returned (refused e) user h = cc
user_of-returned uncaught user h = cc
user_of-returned (verified payload) user h =
    (payload, refl, subject_of-returned (get_claim "sub" payload) user h)

balance_reply-returned :
    {Balance : Type 0} (r : Called Balance) (b : Balance)
    → balance_reply r ≡ returned b
    → r ≡ answered b
balance_reply-returned (answered x) b h = cc
balance_reply-returned (rejected status) b h = cc
balance_reply-returned (failed status) b h = cc

is_owner-text :
    (owner : Option String) (user : Claim)
    → is_owner owner user ≡ true
    → (u : String) × (user ≡ text u) × (owner ≡ some u)
is_owner-text owner (text u) h = (u, refl, (option_eq_iff owner (some u)).0 h)
is_owner-text owner (number n) h = cc

module _ (codec : Codec) (secret : Text) where
  -- The header of a request by a user: its token has been signed with the secret, and the payload in it is
  -- current and names the user.
  abbrev pub IsBearer : ℕ → Option Text → Claim → Type 0
  IsBearer now authorization user =
      (header : Text) × (h : Text) × (p : Text) × (payload : Payload) × (authorization
        ≡ some header)
      × (token_of header ≡ h ++ 46 ∷ p ++ 46 ∷ sign codec (signing_input codec h p) secret)
      × IsLoaded codec (b64url_decode codec p) payload
      × IsCurrent now (get_claim "exp" payload)
      × (get_claim "sub" payload ≡ some user)

  current_user-returned :
      (now : ℕ) (authorization : Option Text) (user : Claim)
      → current_user codec secret now authorization ≡ returned user
      → IsBearer now authorization user
  unfolding current_user
  current_user-returned now none user e = cc
  current_user-returned now (some header) user e =
      elim (Bool-cases (same_text (take 7 header) bearer)) [
        | inl same ↦
            let e' : user_of (decode_token codec now (token_of header) secret) ≡ returned user =
              rw same at e in
            let (payload, decodes, sub) =
              user_of-returned (decode_token codec now (token_of header) secret) user e' in
            let (h, p, parts, holds, current) =
              decode_token_sound codec now (token_of header) secret payload decodes in
            (header, h, p, payload, refl, parts, holds, current, sub)
        | inr other ↦ let e' : raised 401 Reason.no_header ≡ returned user = rw other at e in cc
      ]

module _ {W Balance Accounts Session : Type 0} (resolve : String → W → Called Party × W)
    (balance_of : String → W → Called Balance × W) (accounts_of : Claim → W → Called Accounts × W)
    (log_in : String → String → W → Called Session × W) (codec : Codec) (secret : Text) where
  balance_resolved-returned :
      (user : Claim) (party : Party) (w : W) (b : Balance)
      → (balance_resolved resolve balance_of accounts_of log_in codec secret user party w).0
        ≡ returned b
      → (u : String) × (user ≡ text u)
        × (party.user_id ≡ some u)
        × ((balance_of party.account_id w).0 ≡ answered b)
  balance_resolved-returned user party w b e = elim (Bool-cases (is_owner party.user_id user)) [
    | inl own ↦
        let e' : balance_reply (balance_of party.account_id w).0 ≡ returned b = rw own at e in
        let (u, is_text, owned) = is_owner-text party.user_id user own in
        (u, is_text, owned, balance_reply-returned (balance_of party.account_id w).0 b e')
    | inr other ↦ let e' : raised 403 Reason.not_owner ≡ returned b = rw other at e in cc
  ]

  -- The balance route returns a balance only on a bearer token that carries its own signature by the secret
  -- and whose own payload, decoded, has a time of expiry that has not passed and a text as its subject, where the identifier resolves to an
  -- account of that subject and the balance is the ledger's answer for that account.
  pub balance_owned :
      (now : ℕ) (authorization : Option Text) (identifier : String) (w : W) (b : Balance)
      → (balance resolve balance_of accounts_of log_in codec secret now authorization identifier
          w).0
        ≡ returned b
      → (u : String) × (party : Party) × IsBearer codec secret now authorization (text u)
        × ((resolve identifier w).0 ≡ answered party)
        × (party.user_id ≡ some u)
        × ((balance_of party.account_id (resolve identifier w).1).0 ≡ answered b)
  unfolding balance
  balance_owned now authorization identifier w b e =
      let (user, is_user, e') =
        bind-returned (current_user codec secret now authorization) w
          (λ user.
            let (r, w') = resolve identifier w in
            bind (failed_with r) w' (λ party.
              balance_resolved resolve balance_of accounts_of log_in codec secret user party w'))
          b e in
      let (party, found, e'') =
        bind-returned (failed_with (resolve identifier w).0) (resolve identifier w).1
          (λ party.
            balance_resolved resolve balance_of accounts_of log_in codec secret user party
              (resolve identifier w).1)
          b e' in
      let (u, is_text, owned, told) =
        balance_resolved-returned user party (resolve identifier w).1 b e'' in
      (
        u,
        party,
        subst (IsBearer codec secret now authorization) is_text
            (current_user-returned codec secret now authorization user is_user),
        failed_with-returned (resolve identifier w).0 party found,
        owned,
        told,
      )
