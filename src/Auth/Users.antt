-- ===== src/Auth/Users.antt =====
-- The table of users: what every order of requests keeps of it.
use microfinance_microservic.Common.{
  ℕ, ◌≡◌, refl, sym, String, Bool, true, false, ◌||◌, some, List, [], ◌∷◌, ◌++◌, ◌==◌, HasEq-text,
  eq_iff, All, All-append, Bool-cases, inl, inr,
}
use microfinance_microservic.Msisdn.{Normalised, ok, invalid, normalise}
use microfinance_microservic.Msisdn.Normal.{IsStored, IsCountryCode, normalise-IsStored}
use microfinance_microservic.Auth.{
  PasswordHashing, TokenIssuing, User, RegisterRequest, valid_register, violates_unique,
  delete_user, purge_users, insert_user, register_normalised, register,
}

module _ {H : Type 0} where
  -- No two users have one identifier or one phone number.
  abbrev pub AreUnique : List (User H) → Type 0
  AreUnique [] = Unit
  AreUnique (u ∷ users) = (violates_unique u.user_id u.msisdn users ≡ false) × AreUnique users

  -- ... and each has a phone number in its stored form.
  abbrev pub IsTable : (ℕ → Bool) → List (User H) → Type 0
  IsTable unicode_digit users = AreUnique users × All (λ u. IsStored unicode_digit u.msisdn) users

pub or_parts : (a b : Bool) → (a || b) ≡ false → (a ≡ false) × (b ≡ false)
or_parts true b h = cc
or_parts false b h = (refl, h)

not_both : (a : Bool) → a ≡ false → a ≡ true → ⊥
not_both true h e = cc
not_both false h e = cc

pub same_text : (s : String) → (s == s) ≡ true
same_text s = (eq_iff s s).1 refl

differ_sym : (s t : String) → (s == t) ≡ false → (t == s) ≡ false
differ_sym s t h = elim (Bool-cases (t == s)) [
  | inl e ↦ absurd (not_both (s == t) h ((eq_iff s t).1 (sym ((eq_iff t s).0 e))))
  | inr e ↦ e
]

module _ {H : Type 0} where
  appended :
      (id msisdn : String) (users : List (User H)) (u : User H)
      → violates_unique id msisdn users ≡ false
      → (u.user_id == id) ≡ false
      → (u.msisdn == msisdn) ≡ false
      → violates_unique id msisdn (users ++ u ∷ []) ≡ false
  unfolding violates_unique
  appended id msisdn [] u h hi hm = rw (hi, hm) refl
  appended id msisdn (v ∷ users) u h hi hm =
      let (here, later) =
        or_parts (v.user_id == id || v.msisdn == msisdn) (violates_unique id msisdn users) h in
      rw here (appended id msisdn users u later hi hm)

  append-AreUnique :
      (users : List (User H)) (u : User H)
      → violates_unique u.user_id u.msisdn users ≡ false
      → AreUnique users
      → AreUnique (users ++ u ∷ [])
  unfolding violates_unique
  append-AreUnique [] u new h = (refl, tt)
  append-AreUnique (v ∷ users) u new h =
      let (here, later) =
        or_parts (v.user_id == u.user_id || v.msisdn == u.msisdn)
          (violates_unique u.user_id u.msisdn users) new in
      let (ids, numbers) = or_parts (v.user_id == u.user_id) (v.msisdn == u.msisdn) here in
      (
        appended v.user_id v.msisdn users u h.0 (differ_sym v.user_id u.user_id ids)
            (differ_sym v.msisdn u.msisdn numbers),
        append-AreUnique users u later h.1,
      )

  deleted :
      (id msisdn other : String) (users : List (User H))
      → violates_unique id msisdn users ≡ false
      → violates_unique id msisdn (delete_user other users) ≡ false
  unfolding violates_unique delete_user
  deleted id msisdn other [] h = refl
  deleted id msisdn other (v ∷ users) h =
      let (here, later) =
        or_parts (v.user_id == id || v.msisdn == msisdn) (violates_unique id msisdn users) h in
      elim (Bool-cases (v.user_id == other)) [
        | inl e ↦ rw e (deleted id msisdn other users later)
        | inr e ↦ rw (e, here) (deleted id msisdn other users later)
      ]

  delete_user-AreUnique :
      (other : String) (users : List (User H))
      → AreUnique users
      → AreUnique (delete_user other users)
  unfolding delete_user
  delete_user-AreUnique other [] h = tt
  delete_user-AreUnique other (v ∷ users) h = elim (Bool-cases (v.user_id == other)) [
    | inl e ↦ rw e (delete_user-AreUnique other users h.1)
    | inr e ↦
        rw e (deleted v.user_id v.msisdn other users h.0, delete_user-AreUnique other users h.1)
  ]

  delete_user-All :
      (P : User H → Type 0) (other : String) (users : List (User H))
      → All P users
      → All P (delete_user other users)
  unfolding delete_user
  delete_user-All P other [] h = tt
  delete_user-All P other (v ∷ users) h = elim (Bool-cases (v.user_id == other)) [
    | inl e ↦ rw e (delete_user-All P other users h.1)
    | inr e ↦ rw e (h.0, delete_user-All P other users h.1)
  ]

  -- The compensation of a registration undoes it.
  pub delete_user-append :
      (u : User H) (users : List (User H))
      → violates_unique u.user_id u.msisdn users ≡ false
      → delete_user u.user_id (users ++ u ∷ []) ≡ users
  unfolding delete_user violates_unique
  delete_user-append u [] new = rw (same_text u.user_id) refl
  delete_user-append u (v ∷ users) new =
      let (here, later) =
        or_parts (v.user_id == u.user_id || v.msisdn == u.msisdn)
          (violates_unique u.user_id u.msisdn users) new in
      let (ids, numbers) = or_parts (v.user_id == u.user_id) (v.msisdn == u.msisdn) here in
      rw (ids, delete_user-append u users later) refl

-- The requests that change the table
pub data Request (Salt : Type 0) : Type 0 where
  to_register : (user_id : String) → Salt → (now : ℕ) → RegisterRequest → Request Salt
  to_delete : (user_id : String) → Request Salt
  to_purge : (allow : Bool) → Request Salt

module _ {H Salt T : Type 0} (unicode_digit : ℕ → Bool) (country_code : String)
    (passwords : PasswordHashing H Salt) (tokens : TokenIssuing T) where
  unfoldable pub handle : Request Salt → List (User H) → List (User H)
  unfolding register delete_user purge_users
  handle (to_register user_id salt now body) users =
      (register unicode_digit country_code passwords tokens user_id salt now body users).1
  handle (to_delete user_id) users = delete_user user_id users
  handle (to_purge allow) users = (purge_users allow users).1

  unfoldable pub handle_all : List (Request Salt) → List (User H) → List (User H)
  unfolding handle
  handle_all [] users = users
  handle_all (request ∷ requests) users = handle_all requests (handle request users)

  insert_user-IsTable :
      (u : User H) (users : List (User H))
      → IsStored unicode_digit u.msisdn
      → IsTable unicode_digit users
      → IsTable unicode_digit (insert_user unicode_digit country_code passwords tokens u users).1
  insert_user-IsTable u users stored h =
      elim (Bool-cases (violates_unique u.user_id u.msisdn users)) [
        | inl e ↦ rw e h
        | inr e ↦ rw e (
          append-AreUnique users u e h.0,
          All-append (λ u. IsStored unicode_digit u.msisdn) users (u ∷ []) h.1 (stored, tt),
        )
      ]

  normalised_IsTable :
      (user_id : String) (salt : Salt) (now : ℕ) (body : RegisterRequest) (n : Normalised)
      (users : List (User H))
      → ((d : String) → n ≡ ok d → IsStored unicode_digit d)
      → IsTable unicode_digit users
      → IsTable unicode_digit
          (register_normalised unicode_digit country_code passwords tokens user_id salt now body n
            users).1
  normalised_IsTable user_id salt now body (invalid e) users stored h = h
  normalised_IsTable user_id salt now body (ok d) users stored h =
      insert_user-IsTable
        (record {
          user_id = user_id;
          full_name = body.full_name;
          msisdn = d;
          password_hash = passwords.hash_password salt body.password;
          created_at = now;
        })
        users (stored d refl) h

  register-IsTable :
      IsCountryCode unicode_digit country_code
      → (user_id : String) (salt : Salt) (now : ℕ) (body : RegisterRequest) (users : List (User H))
      → IsTable unicode_digit users
      → IsTable unicode_digit
          (register unicode_digit country_code passwords tokens user_id salt now body users).1
  unfolding register
  register-IsTable code user_id salt now body users h = elim (Bool-cases (valid_register body)) [
    | inl e ↦
        rw (register, e)
          (normalised_IsTable user_id salt now body
            (normalise unicode_digit country_code (some body.msisdn)) users
            (λ d found. normalise-IsStored unicode_digit country_code body.msisdn d code found) h)
    | inr e ↦ rw (register, e) h
  ]

  handle-IsTable :
      IsCountryCode unicode_digit country_code
      → (request : Request Salt) (users : List (User H)) → IsTable unicode_digit users
      → IsTable unicode_digit (handle request users)
  unfolding handle purge_users
  handle-IsTable code (to_register user_id salt now body) users h =
      register-IsTable code user_id salt now body users h
  handle-IsTable code (to_delete user_id) users h = (
    delete_user-AreUnique user_id users h.0,
    delete_user-All (λ u. IsStored unicode_digit u.msisdn) user_id users h.1,
  )
  handle-IsTable code (to_purge true) users h = (tt, tt)
  handle-IsTable code (to_purge false) users h = h

  -- Whatever the order of registrations, deletions and purges, with a country code of digits that
  -- does not begin with 0, a table of users keeps what it has, as the empty one does: no two users
  -- have one identifier or one phone number, and every phone number is in its stored form.
  pub handle_all-IsTable :
      IsCountryCode unicode_digit country_code
      → (requests : List (Request Salt)) (users : List (User H)) → IsTable unicode_digit users
      → IsTable unicode_digit (handle_all requests users)
  unfolding handle_all
  handle_all-IsTable code [] users h = h
  handle_all-IsTable code (request ∷ requests) users h =
      handle_all-IsTable code requests (handle request users) (handle-IsTable code request users h)
