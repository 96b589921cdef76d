-- ===== src/Ledger.antt =====
-- services/ledger-service/app/repository.py: the methods of `LedgerRepository`. What they compute
-- from the rows is here; the proofs are in the modules below.
pub mod Tables
pub mod Balances
pub mod Resolve
pub mod Outcome
pub mod Sums
pub mod Routes
pub mod Invariant
pub mod Keeps
pub mod Reach
pub mod Replay
pub mod Effect
pub mod Retry
mod Tests
use microfinance_microservic.Common.{
  ℕ, ◌≡◌, String, Bool, true, false, ◌&&◌, Option, none, some, List, [], ◌∷◌, ◌++◌, HasEq-text,
  ◌==◌, if◌then◌else◌, length, option_eq,
}
use microfinance_microservic.Common.Int.{ℤ, pos, ◌+ℤ◌, ◌-ℤ◌, ltb_ℤ, HasEq-int}
use microfinance_microservic.Msisdn.{Normalised, normalise}
use Prim.Native.Nat.{Ordering}
use Prim.Native.String.{compare}
use Balances.{signed_sum, same_type}
use Tables.{
  Account, Card, Transaction, EntryType, Entry, Db, empty, Details, Error, insufficient_funds,
  rrn_collision, Result, ok, err, Tx, ◌>>=◌, ◌>>◌, pure, transaction, is_unique_violation,
  account_named, card_numbered, transaction_named, insert_account, insert_card, insert_transaction,
  insert_entry, details_eq, is_some,
}

pub owner_of : String → Db → Option String
owner_of account_id db = elim (account_named account_id db.accounts) [
  | none ↦ none
  | some a ↦ some a.user_id
]

-- FUNDING_ACCOUNT
abbrev pub funding_account : String
funding_account = "acc_system_funding"

ensure_funding : ℕ → Tx (Unit {0})
ensure_funding now db =
    if is_some (account_named funding_account db.accounts)
    then (ok tt, db)
    else insert_account
        (record {
          account_id = funding_account;
          user_id = "system";
          msisdn = none;
          kind = "system";
          created_at = now;
        })
        db

pub ensure_system_accounts : ℕ → Tx (Unit {0})
unfolding ensure_funding
ensure_system_accounts now = transaction (ensure_funding now)

-- The two inserts of `create_account`
insert_holder : Account → Card → Tx String
insert_holder a c = do insert_account a; insert_card c; pure a.account_id

-- `create_account`; the identifier that `uuid` gives is an argument
pub create_account : ℕ → String → String → String → String → Option String → Tx String
unfolding insert_holder
create_account now account_id user_id card_number account_type msisdn = transaction (
    insert_holder
      (record {
        account_id = account_id;
        user_id = user_id;
        msisdn = msisdn;
        kind = account_type;
        created_at = now;
      })
      (record { card_number = card_number; account_id = account_id; status = "active" }))

-- The arguments of `record_posting`
pub record Posting : Type 0 where
  pub rrn : String
  pub debit_account : String
  pub credit_account : String
  pub amount_cents : ℤ
  pub kind : String

-- The `status` of its answer
pub data Posted : Type 0 where
  recorded : ℤ → Posted
  already_recorded : Posted

solvent_row : Option Account → String → ℤ → Tx (Unit {0})
solvent_row none account_id amount db = (ok tt, db)
solvent_row (some a) account_id amount db =
    if a.kind == "system"
    then (ok tt, db)
    else let current = signed_sum account_id db.entries in
      if ltb_ℤ (current -ℤ amount) (pos 0)
      then (err (insufficient_funds account_id current amount), db)
      else (ok tt, db)

-- `_assert_solvent`
pub assert_solvent : String → ℤ → Tx (Unit {0})
unfolding solvent_row
assert_solvent account_id amount db =
    solvent_row (account_named account_id db.accounts) account_id amount db

abbrev pub entry_for : Posting → EntryType → String → Entry
entry_for p side account_id = record {
  rrn = p.rrn;
  account_id = account_id;
  entry_type = side;
  amount_cents = p.amount_cents;
}

abbrev pub row_for : ℕ → Posting → Transaction
row_for now p = record {
  rrn = p.rrn;
  amount_cents = p.amount_cents;
  kind = p.kind;
  created_at = now;
}

-- The body of the `with self.db.transaction()` block
pub write_posting : ℕ → Posting → Tx (Unit {0})
write_posting now p = do
  assert_solvent p.debit_account p.amount_cents
  insert_transaction (row_for now p)
  insert_entry (entry_for p EntryType.debit p.debit_account)
  insert_entry (entry_for p EntryType.credit p.credit_account)

-- MAX of two texts, NULLs left out
max_text : String → Option String → Option String
max_text s none = some s
max_text s (some t) = elim (compare s t) [ Ordering.lt ↦ some t | _ ↦ some s ]

-- MAX(CASE WHEN e.entry_type=side THEN e.account_id END) … WHERE e.rrn = ?
pub account_on : EntryType → String → List Entry → Option String
unfolding max_text
account_on side rrn [] = none
account_on side rrn (e ∷ es) =
    let rest = account_on side rrn es in
    if e.rrn == rrn && same_type e.entry_type side then max_text e.account_id rest else rest

-- `_posting_details`
pub posting_details : String → Db → Option Details
unfolding account_on
posting_details rrn db = elim (transaction_named rrn db.transactions) [
  | none ↦ none
  | some t ↦ some (record {
    amount_cents = t.amount_cents;
    kind = t.kind;
    debit = account_on EntryType.debit rrn db.entries;
    credit = account_on EntryType.credit rrn db.entries;
  })
]

abbrev pub attempted : Posting → Details
attempted p = record {
  amount_cents = p.amount_cents;
  kind = p.kind;
  debit = some p.debit_account;
  credit = some p.credit_account;
}

-- `existing is not None and existing != attempted`
pub replay_or_collision : Posting → Option Details → Result Posted
replay_or_collision p none = ok already_recorded
replay_or_collision p (some existing) =
    if details_eq existing (attempted p)
    then ok already_recorded
    else err (rrn_collision p.rrn existing (attempted p))

-- The `except` clause and the answer
conclude : Posting → Result (Unit {0}) × Db → Result Posted × Db
unfolding replay_or_collision
conclude p (ok u, db) = (ok (recorded p.amount_cents), db)
conclude p (err e, db) =
    if is_unique_violation e "transactions.rrn"
    then (replay_or_collision p (posting_details p.rrn db), db)
    else (err e, db)

pub record_posting : ℕ → Posting → Tx Posted
unfolding conclude
record_posting now p db = conclude p (transaction (write_posting now p) db)

abbrev pub funding_posting : String → ℤ → String → Posting
funding_posting account_id amount_cents rrn = record {
  rrn = rrn;
  debit_account = funding_account;
  credit_account = account_id;
  amount_cents = amount_cents;
  kind = "topup";
}

pub topup : ℕ → String → ℤ → String → Tx Posted
topup now account_id amount_cents rrn =
    record_posting now (funding_posting account_id amount_cents rrn)

-- `reset`: the postings, not the accounts
pub reset : Db → (ℕ × ℕ) × Db
reset db =
    ((length db.entries, length db.transactions), record db { transactions = []; entries = [] })

with_result : {A B : Type 0} → B → Result A × Db → Result B × Db
with_result b (ok a, db) = (ok b, db)
with_result b (err e, db) = (err e, db)

-- `purge`: everything, in its own transaction; then the funding account again
pub purge : ℕ → Tx (ℕ × ℕ × ℕ × ℕ)
unfolding with_result
purge now db =
    with_result (length db.entries, length db.transactions, length db.cards, length db.accounts)
      (ensure_system_accounts now empty)
