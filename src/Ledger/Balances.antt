-- ===== src/Ledger/Balances.antt =====
-- services/ledger-service/app/repository.py: what `balance`, `is_balanced` and `_assert_solvent` sum up.
use microfinance_microservic.Common.{
  String, Bool, true, false, List, [], ◌∷◌, HasEq-text, ◌==◌, if◌then◌else◌,
}
use microfinance_microservic.Common.Int.{ℤ, pos, ◌+ℤ◌, ◌-ℤ◌, HasEq-int}
use microfinance_microservic.Ledger.Tables.{EntryType, Entry, Db}

-- CASE WHEN entry_type='credit' THEN amount_cents ELSE -amount_cents END
unfoldable pub signed_amount : Entry → ℤ
signed_amount e = elim e.entry_type [
  | EntryType.credit ↦ e.amount_cents
  | EntryType.debit ↦ pos 0 -ℤ e.amount_cents
]

-- COALESCE(SUM(that), 0) … WHERE account_id = ?
unfoldable pub signed_sum : String → List Entry → ℤ
signed_sum account_id [] = pos 0
signed_sum account_id (e ∷ es) =
    (if e.account_id == account_id then signed_amount e else pos 0) +ℤ signed_sum account_id es

abbrev pub same_type : EntryType → EntryType → Bool
same_type EntryType.debit EntryType.debit = true
same_type EntryType.credit EntryType.credit = true
same_type _ _ = false

-- SUM(CASE WHEN entry_type=side THEN amount_cents ELSE 0 END) over the rows
unfoldable pub side_sum : EntryType → List Entry → ℤ
side_sum side [] = pos 0
side_sum side (e ∷ es) =
    (if same_type e.entry_type side then e.amount_cents else pos 0) +ℤ side_sum side es

unfoldable pub entries_of : String → List Entry → List Entry
entries_of account_id [] = []
entries_of account_id (e ∷ es) =
    let rest = entries_of account_id es in if e.account_id == account_id then e ∷ rest else rest

-- `balance`: credits minus debits
unfoldable pub balance : String → Db → ℤ
unfolding side_sum entries_of
balance account_id db =
    side_sum EntryType.credit (entries_of account_id db.entries)
    -ℤ side_sum EntryType.debit (entries_of account_id db.entries)

-- `is_balanced`: across the whole ledger
unfoldable pub is_balanced : Db → Bool
is_balanced db = side_sum EntryType.debit db.entries == side_sum EntryType.credit db.entries
