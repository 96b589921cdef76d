-- ===== src/Ledger/Invariant.antt =====
-- What holds of the ledger in every state that the service reaches.
use microfinance_microservic.Common.{
  ℕ, ◌≡◌, refl, String, true, false, none, some, List, [], ◌∷◌, ◌++◌, arith, HasEq-text, ◌==◌,
  if◌then◌else◌, eq_iff, All, All-append,
}
use microfinance_microservic.Common.Int.{pos, ◌≤ℤ◌, int_laws}
use microfinance_microservic.Ledger.{Posting, record_posting, row_for, entry_for}
use microfinance_microservic.Ledger.Balances.{signed_sum, side_sum}
use microfinance_microservic.Ledger.Tables.{
  Account, Transaction, EntryType, Entry, Db, is_some, account_named, transaction_named,
}
use microfinance_microservic.Ledger.Outcome.{
  posted, outcome, record_posting-eq-outcome, short, known,
}
use microfinance_microservic.Ledger.Sums.{signed_sum-posted, side_sum-posted, change}

-- An entry belongs to a transaction and to an account.
pub record Refers (db : Db) (e : Entry) : Type 0 where
  pub to_transaction : is_some (transaction_named e.rrn db.transactions) ≡ true
  pub to_account : is_some (account_named e.account_id db.accounts) ≡ true

pub record IsValid (db : Db) : Type 0 where
  -- every entry belongs to a transaction and to an account
  pub refers : All (Refers db) db.entries
  -- debits and credits add up to the same
  pub balanced : side_sum EntryType.debit db.entries ≡ side_sum EntryType.credit db.entries
  -- no account is overdrawn but a system account
  pub solvent :
      (id : String) (a : Account)
      → account_named id db.accounts ≡ some a
      → (a.kind == "system") ≡ false
      → pos 0 ≤ℤ signed_sum id db.entries

-- Rows are only added.
pub account_named-append :
    (id : String) (rows : List Account) (a : Account)
    → account_named id (rows ++ a ∷ []) ≡ (
        if is_some (account_named id rows)
        then account_named id rows
        else account_named id (a ∷ []))
unfolding account_named
account_named-append id [] a = refl
account_named-append id (x ∷ rows) a = ground (arith, account_named-append id rows a)

pub transaction_named-append :
    (rrn : String) (ts : List Transaction) (t : Transaction)
    → is_some (transaction_named rrn ts) ≡ true
    → transaction_named rrn (ts ++ t ∷ []) ≡ transaction_named rrn ts
unfolding transaction_named
transaction_named-append rrn [] t h = cc
transaction_named-append rrn (x ∷ ts) t h = ground (arith, transaction_named-append rrn ts t)

-- A ledger that keeps the rows of another refers to all that it refers to.
pub Refers-mono :
    (db db' : Db) (es : List Entry)
    → ((e : Entry) → Refers db e → Refers db' e)
    → All (Refers db) es
    → All (Refers db') es
Refers-mono db db' [] keep h = tt
Refers-mono db db' (e ∷ es) keep h = (keep e h.0, Refers-mono db db' es keep h.1)

-- An account that is not there has no entries, so its balance is zero.
pub signed_sum_unknown :
    (id : String) (db : Db) (es : List Entry)
    → All (Refers db) es
    → account_named id db.accounts ≡ none
    → signed_sum id es ≡ pos 0
unfolding signed_sum
signed_sum_unknown id db [] h e = refl
signed_sum_unknown id db (x ∷ es) h e =
    grind (int_laws, signed_sum_unknown id db es h.1 e, h.0.to_account, eq_iff x.account_id id)

Refers-posted :
    (now : ℕ) (p : Posting) (db : Db) (e : Entry) → Refers db e → Refers (posted now p db) e
unfolding posted
Refers-posted now p db e r = ground (
  arith,
  r.to_transaction,
  r.to_account,
  transaction_named-append e.rrn db.transactions (row_for now p),
)

pub transaction_named-append_self :
    (ts : List Transaction) (t : Transaction)
    → is_some (transaction_named t.rrn (ts ++ t ∷ [])) ≡ true
unfolding transaction_named
transaction_named-append_self [] t = ground (arith, eq_iff t.rrn t.rrn)
transaction_named-append_self (u ∷ ts) t = ground (arith, transaction_named-append_self ts t)

-- The solvency test, read for a wallet.
covers :
    (p : Posting) (db : Db) (id : String) (a : Account)
    → short p db ≡ false
    → account_named id db.accounts ≡ some a
    → (a.kind == "system") ≡ false
    → p.debit_account ≡ id
    → p.amount_cents ≤ℤ signed_sum id db.entries
unfolding short
covers p db id a covered found wallet e = grind (int_laws, covered, found, wallet, e)

posted-solvent :
    (now : ℕ) (p : Posting) (db : Db) (id : String) (a : Account)
    → pos 0 ≤ℤ p.amount_cents
    → pos 0 ≤ℤ signed_sum id db.entries
    → (p.debit_account ≡ id → p.amount_cents ≤ℤ signed_sum id db.entries)
    → pos 0 ≤ℤ signed_sum id (posted now p db).entries
unfolding change
posted-solvent now p db id a amount before cover =
    grind (int_laws, signed_sum-posted id now p db, eq_iff p.debit_account id)

entry-Refers :
    (now : ℕ) (p : Posting) (db : Db) (side : EntryType) (id : String)
    → is_some (account_named id db.accounts) ≡ true
    → Refers (posted now p db) (entry_for p side id)
unfolding posted
entry-Refers now p db side id h = record {
  to_transaction = transaction_named-append_self db.transactions (row_for now p);
  to_account = h;
}

posted-Refers :
    (now : ℕ) (p : Posting) (db : Db)
    → All (Refers db) db.entries
    → known p db ≡ true
    → All (Refers (posted now p db)) (posted now p db).entries
unfolding known
posted-Refers now p db refers sides =
    unfold posted in
    All-append _ (db.entries ++ entry_for p EntryType.debit p.debit_account ∷ [])
      (entry_for p EntryType.credit p.credit_account ∷ [])
      (All-append _ db.entries (entry_for p EntryType.debit p.debit_account ∷ [])
        (Refers-mono db (posted now p db) db.entries (Refers-posted now p db) refers)
        (entry-Refers now p db EntryType.debit p.debit_account (ground arith), tt))
      (entry-Refers now p db EntryType.credit p.credit_account (ground arith), tt)

-- A posting that was written keeps the ledger valid.
posted-IsValid :
    (now : ℕ) (p : Posting) (db : Db)
    → pos 0 ≤ℤ p.amount_cents
    → IsValid db
    → short p db ≡ false
    → known p db ≡ true
    → IsValid (posted now p db)
posted-IsValid now p db amount v covered sides = record {
  refers = posted-Refers now p db v.refers sides;
  balanced = grind (
    int_laws,
    v.balanced,
    side_sum-posted EntryType.debit now p db,
    side_sum-posted EntryType.credit now p db,
  );
  solvent = λ id a found wallet.
      let found' : account_named id db.accounts ≡ some a = unfold posted in found in
      posted-solvent now p db id a amount (v.solvent id a found' wallet)
        (covers p db id a covered found' wallet);
}

-- Every call of `record_posting` with an amount that is not negative keeps the ledger valid.
pub record_posting-IsValid :
    (now : ℕ) (p : Posting) (db : Db)
    → pos 0 ≤ℤ p.amount_cents
    → IsValid db
    → IsValid (record_posting now p db).1
unfolding outcome
record_posting-IsValid now p db amount v =
    rw record_posting-eq-outcome (ground (arith, posted-IsValid now p db amount v))
