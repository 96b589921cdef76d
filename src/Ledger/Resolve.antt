-- ===== src/Ledger/Resolve.antt =====
-- services/ledger-service/app/repository.py: `resolve_account`, from an identifier to an account.
use microfinance_microservic.Common.{
  ℕ, String, Bool, Option, none, some, List, [], ◌∷◌, HasEq-text, if◌then◌else◌, option_eq,
}
use microfinance_microservic.Common.Int.{HasEq-int}
use microfinance_microservic.Msisdn.{Normalised, normalise}
use microfinance_microservic.Ledger.Tables.{Account, Card, Db, account_named, card_numbered}

pub first_some : {A : Type 0} → Option A → Option A → Option A
first_some none b = b
first_some (some a) b = some a

-- SELECT account_id FROM accounts WHERE msisdn = ?, its first row
pub account_by_msisdn : String → List Account → Option String
account_by_msisdn number [] = none
account_by_msisdn number (a ∷ rest) =
    if option_eq a.msisdn (some number) then some a.account_id else account_by_msisdn number rest

pub by_number : Normalised → Db → Option String
unfolding account_by_msisdn
by_number (Normalised.ok number) db = account_by_msisdn number db.accounts
by_number (Normalised.invalid e) db = none

abbrev card_account : Option Card → Option String
card_account none = none
card_account (some c) = some c.account_id

abbrev own_account : Option Account → Option String
own_account none = none
own_account (some a) = some a.account_id

-- `resolve_account`: a card, then an account, and a phone number last
pub resolve_account : (ℕ → Bool) → String → String → Db → Option String
unfolding first_some by_number
resolve_account unicode_digit country_code identifier db =
    first_some (card_account (card_numbered identifier db.cards)) (
      first_some (own_account (account_named identifier db.accounts))
        (by_number (normalise unicode_digit country_code (some identifier)) db))
