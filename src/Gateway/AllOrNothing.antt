-- ===== src/Gateway/AllOrNothing.antt =====
-- A registration through the gateway, with auth-service behind it, leaves a user with an account or
-- no user, unless a call of auth-service fails.
use microfinance_microservic.Common.{ℕ, ◌≡◌, String, Bool, ◌⊎◌, some, none, List, [], ◌∷◌, ◌++◌}
use microfinance_microservic.Auth
use microfinance_microservic.Gateway.Register.{
  Called, answered, rejected, failed, RegisterRequest, UserBody, AccountBody, UserAnswer, Success,
  Detail, Reply, returned, raised, register,
}

-- The users of auth-service, and whatever ledger-service keeps.
pub record Platform (H L : Type 0) : Type 0 where
  pub users : List (Auth.User H)
  pub ledger : L

-- What becomes of a call of auth-service, its retries included: it is answered, it never arrives, or it is
-- carried out and the answer is lost.
pub data Fate : Type 0 where
  delivered unreached lost : Fate

-- The call has not been answered with an account.
abbrev pub IsRefusal : Called String → Type 0
IsRefusal (answered account_id) = ⊥
IsRefusal (rejected status) = Unit
IsRefusal (failed status) = Unit

module _ {H Salt T L : Type 0} (unicode_digit : ℕ → Bool) (country_code : String)
    (passwords : Auth.PasswordHashing H Salt) (tokens : Auth.TokenIssuing T) (user_id : String)
    (salt : Salt) (now : ℕ) (create_fate delete_fate : Fate)
    (ledger_create : AccountBody → L → Called String × L) where
  -- The services as the gateway's client sees them
  abbrev pub user_answer :
      L → Auth.Reply Auth.Registered × List (Auth.User H) → Called UserAnswer × Platform H L
  user_answer ledger (Auth.answer r, users) = (
    answered (record { user_id = r.user_id; msisdn = some r.msisdn }),
    record { users = users; ledger = ledger },
  )
  user_answer ledger (Auth.http_error status d, users) =
      (rejected status, record { users = users; ledger = ledger })

  abbrev pub fated :
      Fate → Platform H L → Called UserAnswer × Platform H L → Called UserAnswer × Platform H L
  fated delivered p done = done
  fated unreached p done = (failed none, p)
  fated lost p done = (failed none, done.1)

  abbrev pub auth_create : UserBody → Platform H L → Called UserAnswer × Platform H L
  auth_create body p = fated create_fate p (
      user_answer p.ledger (
        Auth.register unicode_digit country_code passwords tokens user_id salt now
          (record { full_name = body.full_name; msisdn = body.msisdn; password = body.password })
          p.users))

  abbrev account_answer : List (Auth.User H) → Called String × L → Called String × Platform H L
  account_answer users (c, ledger) = (c, record { users = users; ledger = ledger })

  abbrev pub account_create : AccountBody → Platform H L → Called String × Platform H L
  account_create body p = account_answer p.users (ledger_create body p.ledger)

  abbrev pub deleted : Fate → String → Platform H L → Called (Unit {0}) × Platform H L
  deleted delivered id p =
      (answered tt, record { users = Auth.delete_user id p.users; ledger = p.ledger })
  deleted unreached id p = (failed none, p)
  deleted lost id p =
      (failed none, record { users = Auth.delete_user id p.users; ledger = p.ledger })

  abbrev pub auth_delete : String → Platform H L → Called (Unit {0}) × Platform H L
  auth_delete id p = deleted delete_fate id p

  abbrev account_for : RegisterRequest → Auth.User H → AccountBody
  account_for body u = record {
    user_id = u.user_id;
    card_number = body.bind_card_number;
    msisdn = some u.msisdn;
  }

  -- A new user, whose account the ledger made
  abbrev pub Made : RegisterRequest → Platform H L → Reply Success × Platform H L → Type 0
  Made body p result =
      (u : Auth.User H) × (account_id : String) × (result.0
        ≡ returned
            (record { user_id = u.user_id; msisdn = some u.msisdn; account_id = account_id }))
      × (result.1.users ≡ p.users ++ u ∷ [])
      × (ledger_create
            (record {
              user_id = u.user_id;
              card_number = body.bind_card_number;
              msisdn = some u.msisdn;
            })
            p.ledger
          ≡ (answered account_id, result.1.ledger))

  -- The ledger has not been asked, or has answered for this body with no account, and is as that left it.
  abbrev pub Unmade : Platform H L → L → Type 0
  Unmade p ledger =
      (ledger ≡ p.ledger)
      ⊎ ((b : AccountBody) × (c : Called String) × (ledger_create b p.ledger ≡ (c, ledger))
          × IsRefusal c)

  -- An error, and the users as they were
  abbrev pub Undone : Platform H L → Reply Success × Platform H L → Type 0
  Undone p result =
      (status : ℕ) × (d : Detail) × (result.0 ≡ raised status d)
      × (result.1.users ≡ p.users)
      × Unmade p result.1.ledger

  -- An error, and a new user without an account: the answer to its creation was lost, or the ledger made
  -- no account and the delete never arrived.
  abbrev pub Orphaned : RegisterRequest → Platform H L → Reply Success × Platform H L → Type 0
  Orphaned body p result =
      (u : Auth.User H) × (status : ℕ) × (d : Detail) × (result.0 ≡ raised status d)
      × (result.1.users ≡ p.users ++ u ∷ [])
      × (((create_fate ≡ lost) × (result.1.ledger ≡ p.ledger))
          ⊎ ((delete_fate ≡ unreached)
              × (c : Called String) × (ledger_create
                    (record {
                      user_id = u.user_id;
                      card_number = body.bind_card_number;
                      msisdn = some u.msisdn;
                    })
                    p.ledger
                  ≡ (c, result.1.ledger))
              × IsRefusal c))

  -- What `register` leaves
  abbrev pub IsWhole : RegisterRequest → Platform H L → Reply Success × Platform H L → Type 0
  IsWhole body p result = Made body p result ⊎ (Undone p result ⊎ Orphaned body p result)

  abbrev answer_of :
      RegisterRequest → Platform H L → Auth.Reply Auth.Registered × List (Auth.User H)
  answer_of body p =
      Auth.register unicode_digit country_code passwords tokens user_id salt now
        (record { full_name = body.full_name; msisdn = body.msisdn; password = body.password })
        p.users
