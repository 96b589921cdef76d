-- ===== src/Ledger/Replay.antt =====
-- A posting sent again: what is stored under its RRN decides the answer.
use microfinance_microservic.Common.{
  ℕ, ◌≡◌, ◌≢◌, refl, String, false, none, some, List, [], ◌∷◌, ◌++◌, arith, HasEq-text,
  if◌then◌else◌, eq_iff, eq_refl, All, ◌≢◌, append_assoc,
}
use microfinance_microservic.Common.Int.{ℤ}
use microfinance_microservic.Ledger.{
  Posting, recorded, already_recorded, record_posting, account_on, posting_details, attempted,
  replay_or_collision, row_for, entry_for, max_text,
}
use microfinance_microservic.Ledger.Balances.{signed_sum}
use microfinance_microservic.Ledger.Tables.{
  Transaction, EntryType, Entry, Db, ok, err, insufficient_funds, rrn_collision, is_some,
  transaction_named, details_eq_iff,
}
use microfinance_microservic.Ledger.Outcome.{outcome, posted, short, record_posting-eq-outcome}
use microfinance_microservic.Ledger.Invariant.{Refers, IsValid}

-- The posting's details are what is stored under its RRN.
abbrev pub Stored : Posting → Db → Type 0
Stored p db = posting_details p.rrn db ≡ some (attempted p)

-- No entry carries a RRN that has no transaction.
account_on_unknown :
    (side : EntryType) (rrn : String) (db : Db) (es : List Entry)
    → All (Refers db) es
    → is_some (transaction_named rrn db.transactions) ≡ false
    → account_on side rrn es ≡ none
unfolding account_on
account_on_unknown side rrn db [] h new = refl
account_on_unknown side rrn db (e ∷ es) h new =
    ground (arith, account_on_unknown side rrn db es h.1 new, h.0.to_transaction, eq_iff e.rrn rrn)

-- Rows that carry no entry of the RRN are passed over.
account_on-append :
    (side : EntryType) (rrn : String) (es fs : List Entry)
    → account_on side rrn es ≡ none
    → account_on side rrn (es ++ fs) ≡ account_on side rrn fs
unfolding account_on max_text
account_on-append side rrn [] fs h = refl
account_on-append side rrn (e ∷ es) fs h = ground (arith, account_on-append side rrn es fs)

transaction_named_row :
    (now : ℕ) (p : Posting) (ts : List Transaction)
    → is_some (transaction_named p.rrn ts) ≡ false
    → transaction_named p.rrn (ts ++ row_for now p ∷ []) ≡ some (row_for now p)
unfolding transaction_named
transaction_named_row now p [] h = ground (arith, eq_iff p.rrn p.rrn)
transaction_named_row now p (t ∷ ts) h = ground (arith, transaction_named_row now p ts)

account_on_posted :
    (side : EntryType) (p : Posting) (es : List Entry)
    → account_on side p.rrn es ≡ none
    → account_on side p.rrn (
        (es ++ entry_for p EntryType.debit p.debit_account ∷ [])
        ++ entry_for p EntryType.credit p.credit_account ∷ [])
      ≡ account_on side p.rrn (
          entry_for p EntryType.debit p.debit_account
          ∷ entry_for p EntryType.credit p.credit_account
          ∷ [])
account_on_posted side p es h = rw append_assoc (
    account_on-append side p.rrn es
      (entry_for p EntryType.debit p.debit_account
        ∷ entry_for p EntryType.credit p.credit_account
        ∷ [])
      h)

posted-Stored :
    (now : ℕ) (p : Posting) (db : Db)
    → IsValid db
    → is_some (transaction_named p.rrn db.transactions) ≡ false
    → Stored p (posted now p db)
unfolding posting_details posted account_on
posted-Stored now p db v new = ground (
  arith,
  transaction_named_row now p db.transactions new,
  account_on_posted EntryType.debit p db.entries,
  account_on_posted EntryType.credit p db.entries,
  account_on_unknown EntryType.debit p.rrn db db.entries v.refers new,
  account_on_unknown EntryType.credit p.rrn db db.entries v.refers new,
  eq_refl p.rrn,
)

-- A posting that was recorded is stored under its RRN.
pub recorded-Stored :
    (now : ℕ) (p : Posting) (db : Db) (x : ℤ)
    → IsValid db
    → (record_posting now p db).0 ≡ ok (recorded x)
    → Stored p (record_posting now p db).1
unfolding outcome replay_or_collision
recorded-Stored now p db x v done =
    rw record_posting-eq-outcome
      (ground (arith, record_posting-eq-outcome now p db, posted-Stored now p db v))

-- Sent again, a stored posting changes nothing. It is reported as recorded before, but where the
-- solvency test comes first and fails.
pub replay_lem :
    (now : ℕ) (p : Posting) (db : Db)
    → Stored p db
    → record_posting now p db ≡ (
        if short p db
        then (
          err (
              insufficient_funds p.debit_account
                (signed_sum p.debit_account db.entries)
                p.amount_cents),
          db,
        )
        else (ok already_recorded, db))
unfolding outcome replay_or_collision posting_details
replay_lem now p db stored =
    rw record_posting-eq-outcome
      (ground (arith, stored, details_eq_iff (attempted p) (attempted p)))

-- Another posting under a stored RRN is refused and changes nothing.
pub collision_lem :
    (now : ℕ) (p q : Posting) (db : Db)
    → Stored p db
    → q.rrn ≡ p.rrn
    → attempted q ≢ attempted p
    → short q db ≡ false
    → record_posting now q db ≡ (err (rrn_collision q.rrn (attempted p) (attempted q)), db)
unfolding outcome replay_or_collision posting_details
collision_lem now p q db stored same other covered =
    rw record_posting-eq-outcome
      (ground (arith, stored, details_eq_iff (attempted p) (attempted q)))
