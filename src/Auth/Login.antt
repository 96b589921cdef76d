-- ===== src/Auth/Login.antt =====
-- A user who has registered logs in, and the token is theirs for as long as they exist.
use microfinance_microservic.Common.{
  ℕ, ◌+◌, ◌*◌, ◌/◌, ◌≤◌, ◌≡◌, refl, String, Bool, true, false, ◌||◌, none, some, List, [], ◌∷◌,
  ◌++◌, ◌==◌, HasEq-text, Bool-cases, ◌⊎◌, inl, inr,
}
use microfinance_microservic.Msisdn.{Normalised, ok, invalid, normalise}
use microfinance_microservic.Auth.{
  PasswordHashing, TokenIssuing, User, RegisterRequest, Registered, active, no_longer_exists,
  valid_register, valid_msisdn_field, Reply, answer, http_error, violates_unique, find_msisdn,
  find_user, delete_user, register, login, introspect, Detail, validation_error, bad_msisdn,
  already_registered, insert_user, register_normalised,
}
use microfinance_microservic.Auth.Users.{or_parts, same_text, delete_user-append}

module _ {H : Type 0} where
  find_new_msisdn :
      (u : User H) (users : List (User H))
      → violates_unique u.user_id u.msisdn users ≡ false
      → find_msisdn u.msisdn (users ++ u ∷ []) ≡ some u
  unfolding find_msisdn violates_unique
  find_new_msisdn u [] new = rw (same_text u.msisdn) refl
  find_new_msisdn u (v ∷ users) new =
      let (here, later) =
        or_parts (v.user_id == u.user_id || v.msisdn == u.msisdn)
          (violates_unique u.user_id u.msisdn users) new in
      rw ((or_parts (v.user_id == u.user_id) (v.msisdn == u.msisdn) here).1)
        (find_new_msisdn u users later)

  find_new_user :
      (u : User H) (users : List (User H))
      → violates_unique u.user_id u.msisdn users ≡ false
      → find_user u.user_id (users ++ u ∷ []) ≡ some u
  unfolding find_user violates_unique
  find_new_user u [] new = rw (same_text u.user_id) refl
  find_new_user u (v ∷ users) new =
      let (here, later) =
        or_parts (v.user_id == u.user_id || v.msisdn == u.msisdn)
          (violates_unique u.user_id u.msisdn users) new in
      rw ((or_parts (v.user_id == u.user_id) (v.msisdn == u.msisdn) here).0)
        (find_new_user u users later)

  find_absent :
      (id msisdn : String) (users : List (User H))
      → violates_unique id msisdn users ≡ false
      → find_user id users ≡ none
  unfolding find_user violates_unique
  find_absent id msisdn [] new = refl
  find_absent id msisdn (v ∷ users) new =
      let (here, later) =
        or_parts (v.user_id == id || v.msisdn == msisdn) (violates_unique id msisdn users) new in
      rw ((or_parts (v.user_id == id) (v.msisdn == msisdn) here).0)
        (find_absent id msisdn users later)

module _ {H Salt T : Type 0} (unicode_digit : ℕ → Bool) (country_code : String)
    (passwords : PasswordHashing H Salt) (tokens : TokenIssuing T) where
  -- The row of a registration
  abbrev pub row_of : String → Salt → ℕ → String → RegisterRequest → User H
  row_of user_id salt now msisdn body = record {
    user_id = user_id;
    full_name = body.full_name;
    msisdn = msisdn;
    password_hash = passwords.hash_password salt body.password;
    created_at = now;
  }

  pub register_lem :
      (user_id : String) (salt : Salt) (now : ℕ) (body : RegisterRequest) (msisdn : String)
      (users : List (User H))
      → valid_register body ≡ true
      → normalise unicode_digit country_code (some body.msisdn) ≡ ok msisdn
      → violates_unique user_id msisdn users ≡ false
      → register unicode_digit country_code passwords tokens user_id salt now body users ≡ (
        answer (record { user_id = user_id; full_name = body.full_name; msisdn = msisdn }),
        users ++ row_of user_id salt now msisdn body ∷ [],
      )
  unfolding register
  register_lem user_id salt now body msisdn users valid number new = rw (valid, number, new) refl

  -- A valid registration of a number and an identifier that nobody has adds its user. With the same
  -- password, and the number in any spelling of it, they log in; until the token expires, `introspect`
  -- answers with their identifier and name, and once they are deleted, that they are gone.
  pub login-register :
      (user_id : String) (salt : Salt) (now : ℕ) (body : RegisterRequest) (msisdn : String)
      (users : List (User H)) (spelling : String) (at lifetime later : ℕ)
      → valid_register body ≡ true
      → normalise unicode_digit country_code (some body.msisdn) ≡ ok msisdn
      → violates_unique user_id msisdn users ≡ false
      → valid_msisdn_field spelling ≡ true
      → normalise unicode_digit country_code (some spelling) ≡ ok msisdn
      → later ≤ 1000 * (at / 1000 + lifetime)
      → (after : List (User H)) × (token : T) × (register unicode_digit country_code passwords
            tokens user_id salt now body users
          ≡ (
            answer (record { user_id = user_id; full_name = body.full_name; msisdn = msisdn }),
            after,
          ))
        × (login unicode_digit country_code passwords tokens at lifetime
              (record { msisdn = spelling; password = body.password })
              after
            ≡ answer
                (record { access_token = token; expires_in_seconds = lifetime; user_id = user_id }))
        × (introspect unicode_digit country_code passwords tokens later token after
            ≡ active user_id body.full_name (at / 1000 + lifetime))
        × (introspect unicode_digit country_code passwords tokens later token
              (delete_user user_id after)
            ≡ no_longer_exists)
  unfolding login introspect
  login-register user_id salt now body msisdn users spelling at lifetime later valid number new
        field spelled fresh =
      let u : User H = row_of user_id salt now msisdn body in
      let decoded = tokens.decode_own at lifetime later user_id fresh in
      (
        users ++ u ∷ [],
        tokens.create_token at user_id lifetime,
        register_lem user_id salt now body msisdn users valid number new,
        rw (field, spelled, find_new_msisdn u users new, passwords.verify_own salt body.password)
            refl,
        rw (decoded, find_new_user u users new) refl,
        rw (decoded, delete_user-append u users new, find_absent user_id msisdn users new) refl,
      )

  abbrev pub Refused : Reply Registered × List (User H) → List (User H) → Type 0
  Refused result users = (status : ℕ) × (d : Detail) × (result ≡ (http_error status d, users))

  abbrev pub Added : Reply Registered × List (User H) → List (User H) → Type 0
  Added result users =
      (u : User H) × (violates_unique u.user_id u.msisdn users ≡ false)
      × (result ≡ (
        answer (record { user_id = u.user_id; full_name = u.full_name; msisdn = u.msisdn }),
        users ++ u ∷ [],
      ))

  insert_cases :
      (u : User H) (users : List (User H))
      → Refused (insert_user unicode_digit country_code passwords tokens u users) users
        ⊎ Added (insert_user unicode_digit country_code passwords tokens u users) users
  insert_cases u users = elim (Bool-cases (violates_unique u.user_id u.msisdn users)) [
    | inl e ↦ inl (409, already_registered, rw e refl)
    | inr e ↦ inr (u, e, rw e refl)
  ]

  normalised_cases :
      (user_id : String) (salt : Salt) (now : ℕ) (body : RegisterRequest) (n : Normalised)
      (users : List (User H))
      → Refused
          (register_normalised unicode_digit country_code passwords tokens user_id salt now body n
            users)
          users
        ⊎ Added
            (register_normalised unicode_digit country_code passwords tokens user_id salt now body n
              users)
            users
  normalised_cases user_id salt now body (invalid e) users = inl (400, bad_msisdn, refl)
  normalised_cases user_id salt now body (ok d) users =
      insert_cases (row_of user_id salt now d body) users

  -- A registration is refused and changes nothing, or adds one user that is new.
  pub register_cases :
      (user_id : String) (salt : Salt) (now : ℕ) (body : RegisterRequest) (users : List (User H))
      → Refused
          (register unicode_digit country_code passwords tokens user_id salt now body users)
          users
        ⊎ Added
            (register unicode_digit country_code passwords tokens user_id salt now body users)
            users
  unfolding register
  register_cases user_id salt now body users = elim (Bool-cases (valid_register body)) [
    | inl e ↦ rw e (
        normalised_cases user_id salt now body
          (normalise unicode_digit country_code (some body.msisdn)) users)
    | inr e ↦ inl (422, validation_error, rw e refl)
  ]
