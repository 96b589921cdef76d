-- ===== src/Ledger/Sums.antt =====
-- The sums that `balance`, `_assert_solvent` and `is_balanced` take over the entries.
use microfinance_microservic.Common.{
  ℕ, ◌≡◌, String, List, [], ◌∷◌, ◌++◌, HasEq-text, ◌==◌, if◌then◌else◌,
}
use microfinance_microservic.Common.Int.{ℤ, pos, ◌+ℤ◌, ◌-ℤ◌, int_laws}
use microfinance_microservic.Ledger.{Posting, entry_for}
use microfinance_microservic.Ledger.Balances.{
  signed_amount, signed_sum, side_sum, entries_of, balance,
}
use microfinance_microservic.Ledger.Tables.{EntryType, Entry, Db}
use microfinance_microservic.Ledger.Outcome.{posted}

abbrev share_of : String → Entry → ℤ
share_of id e = if e.account_id == id then signed_amount e else pos 0

signed_sum-append :
    (id : String) (es : List Entry) (e : Entry)
    → signed_sum id (es ++ e ∷ []) ≡ signed_sum id es +ℤ share_of id e
unfolding signed_sum
signed_sum-append id [] e = omega int_laws
signed_sum-append id (x ∷ es) e = grind (int_laws, signed_sum-append id es e)

abbrev side_share : EntryType → Entry → ℤ
side_share side e = side_sum side (e ∷ [])

side_sum-append :
    (side : EntryType) (es : List Entry) (e : Entry)
    → side_sum side (es ++ e ∷ []) ≡ side_sum side es +ℤ side_share side e
unfolding side_sum
side_sum-append side [] e = omega int_laws
side_sum-append side (x ∷ es) e = grind (int_laws, side_sum-append side es e)

sides_sum :
    (id : String) (es : List Entry)
    → side_sum EntryType.credit (entries_of id es) -ℤ side_sum EntryType.debit (entries_of id es)
      ≡ signed_sum id es
unfolding signed_sum signed_amount side_sum entries_of
sides_sum id [] = omega int_laws
sides_sum id (x ∷ es) = grind (int_laws, sides_sum id es)

-- The two queries for an account's balance, the pair of sums of `balance` and the signed sum of
-- `_assert_solvent`, give the same number on every ledger.
pub balance-eq-signed_sum : (id : String) (db : Db) → balance id db ≡ signed_sum id db.entries
unfolding balance
balance-eq-signed_sum id db = sides_sum id db.entries

-- What a posting adds to the balance of an account.
unfoldable pub change : String → Posting → ℤ
change id p =
    (if p.credit_account == id then p.amount_cents else pos 0)
    -ℤ (if p.debit_account == id then p.amount_cents else pos 0)

pub signed_sum-posted :
    (id : String) (now : ℕ) (p : Posting) (db : Db)
    → signed_sum id (posted now p db).entries ≡ signed_sum id db.entries +ℤ change id p
unfolding posted change signed_amount
signed_sum-posted id now p db = grind (
  int_laws,
  signed_sum-append id db.entries (entry_for p EntryType.debit p.debit_account),
  signed_sum-append id (db.entries ++ entry_for p EntryType.debit p.debit_account ∷ [])
      (entry_for p EntryType.credit p.credit_account),
)

pub side_sum-posted :
    (side : EntryType) (now : ℕ) (p : Posting) (db : Db)
    → side_sum side (posted now p db).entries ≡ side_sum side db.entries +ℤ p.amount_cents
unfolding posted side_sum
side_sum-posted EntryType.debit now p db = grind (
  int_laws,
  side_sum-append EntryType.debit db.entries (entry_for p EntryType.debit p.debit_account),
  side_sum-append EntryType.debit (db.entries ++ entry_for p EntryType.debit p.debit_account ∷ [])
      (entry_for p EntryType.credit p.credit_account),
)
side_sum-posted EntryType.credit now p db = grind (
  int_laws,
  side_sum-append EntryType.credit db.entries (entry_for p EntryType.debit p.debit_account),
  side_sum-append EntryType.credit (db.entries ++ entry_for p EntryType.debit p.debit_account ∷ [])
      (entry_for p EntryType.credit p.credit_account),
)
