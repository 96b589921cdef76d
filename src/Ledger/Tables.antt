-- ===== src/Ledger/Tables.antt =====
-- services/ledger-service/app/repository.py: the tables of `init_schema`, the constraints that they
-- declare, and the exceptions that a method raises. A table is the list of its rows, oldest first;
-- the surrogate key of `ledger_entries`, which no statement reads, is left out. A time is the
-- number of a clock's tick. `transaction` is that of libs/mfcommon/mfcommon/db/dialect.py.
use microfinance_microservic.Common.{
  ℕ, ◌≡◌, ◌↔◌, arith, String, Bool, true, false, ◌&&◌, Option, none, some, List, [], ◌∷◌, ◌++◌,
  HasEq-text, ◌==◌, option_eq, option_eq_iff, if◌then◌else◌, eq_iff,
}
use microfinance_microservic.Common.Int.{ℤ, HasEq-int, int_eq_iff}

pub record Account : Type 0 where
  pub account_id : String
  pub user_id : String
  pub msisdn : Option String
  pub kind : String
  pub created_at : ℕ

pub record Card : Type 0 where
  pub card_number : String
  pub account_id : String
  pub status : String

pub record Transaction : Type 0 where
  pub rrn : String
  pub amount_cents : ℤ
  pub kind : String
  pub created_at : ℕ

-- CHECK (entry_type IN ('debit','credit'))
pub data EntryType : Type 0 where
  debit credit : EntryType

pub record Entry : Type 0 where
  pub rrn : String
  pub account_id : String
  pub entry_type : EntryType
  pub amount_cents : ℤ

pub record Db : Type 0 where
  pub accounts : List Account
  pub cards : List Card
  pub transactions : List Transaction
  pub entries : List Entry

abbrev pub empty : Db
empty = record { accounts = []; cards = []; transactions = []; entries = [] }

-- What is stored, or attempted, under one RRN.
pub record Details : Type 0 where
  pub amount_cents : ℤ
  pub kind : String
  pub debit : Option String
  pub credit : Option String

pub data Error : Type 0 where
  unique_violation : String → Error
  foreign_key_violation : Error
  insufficient_funds : String → ℤ → ℤ → Error
  rrn_collision : String → Details → Details → Error

pub data Result {ℓ} (A : Type ℓ) : Type ℓ where
  ok : A → Result A
  err : Error → Result A

-- Statements on one connection.
abbrev pub Tx : Type 0 → Type 0
Tx A = Db → Result A × Db

abbrev pub pure : {A : Type 0} → A → Tx A
pure a db = (ok a, db)

infixl 5 ◌>>=◌ ◌>>◌
abbrev pub ◌>>=◌ : {A B : Type 0} → Tx A → (A → Tx B) → Tx B
◌>>=◌ m f db = let (r, db') = m db in elim r [ ok a ↦ f a db' | err e ↦ (err e, db') ]

abbrev pub ◌>>◌ : {A B : Type 0} → Tx A → Tx B → Tx B
m >> k = m >>= λ _. k

-- `Database.transaction`: commits on success, rolls back on any exception.
abbrev pub settle : {A : Type 0} → Db → Result A × Db → Result A × Db
settle before (ok a, after) = (ok a, after)
settle before (err e, after) = (err e, before)

abbrev pub transaction : {A : Type 0} → Tx A → Tx A
transaction m db = settle db (m db)

-- `Database.is_unique_violation` with the constraint as its hint. (Postgres reports no constraint
-- to it, and the only unique keys that these transactions insert into are the ones named.)
abbrev pub is_unique_violation : Error → String → Bool
is_unique_violation (unique_violation c) hint = c == hint
is_unique_violation _ hint = false

-- SELECT … FROM accounts WHERE account_id = ?
unfoldable pub account_named : String → List Account → Option Account
account_named id [] = none
account_named id (a ∷ rest) = if a.account_id == id then some a else account_named id rest

unfoldable pub card_numbered : String → List Card → Option Card
card_numbered number [] = none
card_numbered number (c ∷ rest) =
    if c.card_number == number then some c else card_numbered number rest

-- SELECT … FROM transactions WHERE rrn = ?
unfoldable pub transaction_named : String → List Transaction → Option Transaction
transaction_named rrn [] = none
transaction_named rrn (t ∷ rest) = if t.rrn == rrn then some t else transaction_named rrn rest

abbrev pub is_some : {A : Type 0} → Option A → Bool
is_some none = false
is_some (some a) = true

-- INSERT INTO accounts, with its PRIMARY KEY
unfoldable pub insert_account : Account → Tx (Unit {0})
insert_account a db =
    if is_some (account_named a.account_id db.accounts)
    then (err (unique_violation "accounts.account_id"), db)
    else (ok tt, record db { accounts = db.accounts ++ a ∷ [] })

-- INSERT INTO cards, with its PRIMARY KEY and REFERENCES accounts(account_id)
unfoldable pub insert_card : Card → Tx (Unit {0})
insert_card c db =
    if is_some (card_numbered c.card_number db.cards)
    then (err (unique_violation "cards.card_number"), db)
    else if is_some (account_named c.account_id db.accounts)
    then (ok tt, record db { cards = db.cards ++ c ∷ [] })
    else (err foreign_key_violation, db)

-- INSERT INTO transactions, with its PRIMARY KEY
unfoldable pub insert_transaction : Transaction → Tx (Unit {0})
insert_transaction t db =
    if is_some (transaction_named t.rrn db.transactions)
    then (err (unique_violation "transactions.rrn"), db)
    else (ok tt, record db { transactions = db.transactions ++ t ∷ [] })

-- INSERT INTO ledger_entries, with its two REFERENCES
unfoldable pub insert_entry : Entry → Tx (Unit {0})
insert_entry e db =
    if is_some (transaction_named e.rrn db.transactions)
      && is_some (account_named e.account_id db.accounts)
    then (ok tt, record db { entries = db.entries ++ e ∷ [] })
    else (err foreign_key_violation, db)

abbrev pub details_eq : Details → Details → Bool
details_eq a b =
    a.amount_cents == b.amount_cents
    && a.kind == b.kind
    && option_eq a.debit b.debit
    && option_eq a.credit b.credit

pub details_eq_iff : (a b : Details) → (details_eq a b ≡ true) ↔ (a ≡ b)
details_eq_iff a b = ground (
  arith,
  int_eq_iff a.amount_cents b.amount_cents,
  eq_iff a.kind b.kind,
  option_eq_iff a.debit b.debit,
  option_eq_iff a.credit b.credit,
)
