-- ===== src/Ledger/Outcome.antt =====
-- What one call of `record_posting` does, on every branch.
use microfinance_microservic.Common.{
  ℕ, ◌≡◌, String, Bool, true, false, ◌&&◌, not, Option, none, some, List, [], ◌∷◌, ◌++◌, arith,
  HasEq-text, ◌==◌, if◌then◌else◌, eq_iff, eq_refl,
}
use microfinance_microservic.Common.Int.{ℤ, pos, ◌-ℤ◌, ltb_ℤ}
use microfinance_microservic.Ledger.{
  Posting, Posted, recorded, assert_solvent, entry_for, row_for, write_posting, replay_or_collision,
  posting_details, record_posting,
}
use microfinance_microservic.Ledger.Balances.{signed_sum}
use microfinance_microservic.Ledger.Tables.{
  Account, Transaction, EntryType, Db, foreign_key_violation, insufficient_funds, Result, ok, err,
  is_some, account_named, transaction_named, insert_transaction, insert_entry,
}

-- The debit account is a wallet whose balance does not cover the amount.
abbrev short_row : Option Account → String → ℤ → Db → Bool
short_row none account_id amount db = false
short_row (some a) account_id amount db =
    not (a.kind == "system") && ltb_ℤ (signed_sum account_id db.entries -ℤ amount) (pos 0)

unfoldable pub short : Posting → Db → Bool
short p db = short_row (account_named p.debit_account db.accounts) p.debit_account p.amount_cents db

-- Both sides of the posting are accounts.
unfoldable pub known : Posting → Db → Bool
known p db =
    is_some (account_named p.debit_account db.accounts)
    && is_some (account_named p.credit_account db.accounts)

-- The ledger with the posting's row and its two entries.
unfoldable pub posted : ℕ → Posting → Db → Db
posted now p db = record db {
  transactions = db.transactions ++ row_for now p ∷ [];
  entries =
      (db.entries ++ entry_for p EntryType.debit p.debit_account ∷ [])
      ++ entry_for p EntryType.credit p.credit_account ∷ [];
}

-- `record_posting` as one case distinction, with no statement in between.
unfoldable pub outcome : ℕ → Posting → Db → Result Posted × Db
outcome now p db =
    if short p db
    then (
      err (
          insufficient_funds p.debit_account (signed_sum p.debit_account db.entries)
            p.amount_cents),
      db,
    )
    else if is_some (transaction_named p.rrn db.transactions)
    then (replay_or_collision p (posting_details p.rrn db), db)
    else if known p db
    then (ok (recorded p.amount_cents), posted now p db)
    else (err foreign_key_violation, db)

transaction_named-append_self :
    (t : Transaction) (ts : List Transaction)
    → is_some (transaction_named t.rrn (ts ++ t ∷ [])) ≡ true
unfolding transaction_named
transaction_named-append_self t [] = ground (arith, eq_iff t.rrn t.rrn)
transaction_named-append_self t (u ∷ ts) = ground (arith, transaction_named-append_self t ts)

assert_solvent_lem :
    (p : Posting) (db : Db)
    → assert_solvent p.debit_account p.amount_cents db ≡ (
        if short p db
        then (
          err (
              insufficient_funds p.debit_account
                (signed_sum p.debit_account db.entries)
                p.amount_cents),
          db,
        )
        else (ok tt, db))
unfolding assert_solvent short
assert_solvent_lem p db = ground arith

-- The code and the case distinction agree.
pub record_posting-eq-outcome :
    (now : ℕ) (p : Posting) (db : Db) → record_posting now p db ≡ outcome now p db
unfolding record_posting outcome write_posting insert_transaction insert_entry known posted
record_posting-eq-outcome now p db = ground (
  arith,
  assert_solvent_lem p db,
  transaction_named-append_self (row_for now p) db.transactions,
  eq_refl "transactions.rrn",
)
