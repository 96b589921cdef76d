-- ===== src/Ledger/Effect.antt =====
-- What a call of `record_posting` leaves behind, by how it ended.
use microfinance_microservic.Common.{
  ℕ, ◌≡◌, ◌≢◌, refl, String, false, some, arith, HasEq-text, ◌==◌, if◌then◌else◌, eq_iff, Bool,
  true, Option, none, Bool-cases, inl, inr,
}
use microfinance_microservic.Common.Int.{ℤ, pos, ◌+ℤ◌, ◌-ℤ◌, ◌<ℤ◌, int_laws}
use microfinance_microservic.Ledger.{
  Posting, Posted, recorded, already_recorded, record_posting, replay_or_collision, posting_details,
  attempted,
}
use microfinance_microservic.Ledger.Balances.{balance, signed_sum}
use microfinance_microservic.Ledger.Tables.{
  Account, Db, Result, ok, err, Details, insufficient_funds, account_named, is_some,
  transaction_named, details_eq,
}
use microfinance_microservic.Ledger.Outcome.{
  outcome, posted, short, known, record_posting-eq-outcome,
}
use microfinance_microservic.Ledger.Sums.{change, signed_sum-posted, balance-eq-signed_sum}
use microfinance_microservic.Ledger.Invariant.{IsValid}
use microfinance_microservic.Ledger.Replay.{Stored, recorded-Stored, replay_lem}

-- The effect of a call on the balances: the two sides of a recorded posting move by its amount and
-- no other account moves; any other end leaves the ledger as it was.
abbrev pub Effect : Posting → Db → Result Posted × Db → Type 0
Effect p db (ok (recorded x), db') =
    (x ≡ p.amount_cents) × ((id : String) → balance id db' ≡ balance id db +ℤ change id p)
Effect p db (ok already_recorded, db') = db' ≡ db
Effect p db (err e, db') = db' ≡ db

balance-posted :
    (now : ℕ) (p : Posting) (db : Db) (id : String)
    → balance id (posted now p db) ≡ balance id db +ℤ change id p
balance-posted now p db id =
    rw (balance-eq-signed_sum id (posted now p db), balance-eq-signed_sum id db)
      (signed_sum-posted id now p db)

if-Effect :
    (p : Posting) (db : Db) (test : Bool) (x y : Result Posted × Db)
    → Effect p db x
    → Effect p db y
    → Effect p db (if test then x else y)
if-Effect p db true x y hx hy = hx
if-Effect p db false x y hx hy = hy

replay-Effect :
    (p : Posting) (db : Db) (existing : Option Details)
    → Effect p db (replay_or_collision p existing, db)
unfolding replay_or_collision
replay-Effect p db none = refl
replay-Effect p db (some d) = elim (Bool-cases (details_eq d (attempted p))) [
  | inl same ↦ rw same refl
  | inr other ↦ rw other refl
]

outcome-Effect : (now : ℕ) (p : Posting) (db : Db) → Effect p db (outcome now p db)
unfolding outcome
outcome-Effect now p db = if-Effect p db (short p db) _ _ refl (
    if-Effect p db (is_some (transaction_named p.rrn db.transactions)) _ _
      (replay-Effect p db (posting_details p.rrn db))
      (if-Effect p db (known p db) _ _ (refl, balance-posted now p db) refl))

-- A call moves the posting's amount from its debit account to its credit account, or, refused or
-- repeated, changes nothing.
pub record_posting-Effect :
    (now : ℕ) (p : Posting) (db : Db) → Effect p db (record_posting now p db)
record_posting-Effect now p db = rw record_posting-eq-outcome (outcome-Effect now p db)

-- A posting whose RRN is stored and whose debit account is a wallet that no longer covers the
-- amount is answered as an overdraft.
retry_of_drained :
    (later : ℕ) (p : Posting) (db : Db)
    → Stored p db
    → short p db ≡ true
    → record_posting later p db ≡ (
      err (
          insufficient_funds p.debit_account
            (signed_sum p.debit_account db.entries)
            p.amount_cents),
      db,
    )
retry_of_drained later p db stored drained = rw (replay_lem later p db stored, drained)

short_of_drained :
    (p : Posting) (db : Db) (a : Account)
    → account_named p.debit_account db.accounts ≡ some a
    → (a.kind == "system") ≡ false
    → balance p.debit_account db <ℤ p.amount_cents
    → short p db ≡ true
unfolding short
short_of_drained p db a found wallet low =
    grind (int_laws, found, wallet, balance-eq-signed_sum p.debit_account db)

-- Only a posting that was written is answered as recorded.
pub recorded-posted :
    (now : ℕ) (p : Posting) (db : Db) (x : ℤ)
    → (record_posting now p db).0 ≡ ok (recorded x)
    → record_posting now p db ≡ (ok (recorded p.amount_cents), posted now p db)
unfolding outcome replay_or_collision
recorded-posted now p db x done =
    rw record_posting-eq-outcome (ground (arith, record_posting-eq-outcome now p db))

change_debit :
    (p : Posting)
    → p.credit_account ≢ p.debit_account
    → change p.debit_account p ≡ pos 0 -ℤ p.amount_cents
unfolding change
change_debit p apart =
    ground (arith, eq_iff p.credit_account p.debit_account, eq_iff p.debit_account p.debit_account)

posted-short :
    (now : ℕ) (p : Posting) (db : Db) (a : Account)
    → account_named p.debit_account db.accounts ≡ some a
    → (a.kind == "system") ≡ false
    → p.credit_account ≢ p.debit_account
    → balance p.debit_account db <ℤ p.amount_cents +ℤ p.amount_cents
    → short p (posted now p db) ≡ true
unfolding posted
posted-short now p db a found wallet apart low =
    short_of_drained p (posted now p db) a found wallet
      (rw (balance-posted now p db p.debit_account, change_debit p apart) (omega int_laws))

-- The posting that spent a wallet down to less than its amount, sent again after it was recorded,
-- is not reported as already recorded: the solvency test comes before the RRN is looked up, and
-- the answer is an overdraft, with the ledger unchanged.
pub retry_reports_overdraft :
    (now later : ℕ) (p : Posting) (db : Db) (a : Account) (x : ℤ)
    → IsValid db
    → (record_posting now p db).0 ≡ ok (recorded x)
    → account_named p.debit_account db.accounts ≡ some a
    → (a.kind == "system") ≡ false
    → p.credit_account ≢ p.debit_account
    → balance p.debit_account db <ℤ p.amount_cents +ℤ p.amount_cents
    → let after = (record_posting now p db).1 in
      record_posting later p after ≡ (
        err (
            insufficient_funds p.debit_account
              (signed_sum p.debit_account after.entries)
              p.amount_cents),
        after,
      )
retry_reports_overdraft now later p db a x v done found wallet apart low =
    retry_of_drained later p (record_posting now p db).1 (recorded-Stored now p db x v done)
      (rw (recorded-posted now p db x done) (posted-short now p db a found wallet apart low))
