-- ===== src/Ledger/Retry.antt =====
-- A recorded posting stays stored under its RRN whatever is requested next, short of a wipe, so
-- it takes effect once.
use microfinance_microservic.Common.{
  ℕ, ◌≡◌, ◌≢◌, String, Bool, true, false, List, [], ◌∷◌, ◌++◌, arith, HasEq-text, if◌then◌else◌,
  eq_iff, All,
}
use microfinance_microservic.Common.Int.{ℤ}
use microfinance_microservic.Ledger.{
  Posting, recorded, already_recorded, record_posting, topup, funding_posting, account_on,
  posting_details, row_for, entry_for,
}
use microfinance_microservic.Ledger.Balances.{signed_sum}
use microfinance_microservic.Ledger.Tables.{
  Account, Card, EntryType, Entry, Db, ok, err, is_some, insufficient_funds, transaction_named,
  insert_account, insert_card,
}
use microfinance_microservic.Ledger.Outcome.{outcome, posted, short, record_posting-eq-outcome}
use microfinance_microservic.Ledger.Invariant.{IsValid, transaction_named-append}
use microfinance_microservic.Ledger.Replay.{Stored, recorded-Stored, replay_lem}
use microfinance_microservic.Ledger.Keeps.{create_account-keeps}
use microfinance_microservic.Ledger.Routes.{
  Request, open_account, post, top_up, wipe_postings, wipe_all, serve, serve_all, create_posting,
  topup_route, create_account_route,
}

-- The request deletes no posting.
abbrev pub IsKeeping : ℕ × Request → Type 0
IsKeeping (now, wipe_postings) = ⊥
IsKeeping (now, wipe_all) = ⊥
IsKeeping _ = Unit

-- What is stored under an RRN is read from two tables only.
accounts-Stored :
    (p : Posting) (accounts : List Account) (cards : List Card) (db : Db)
    → Stored p db
    → Stored p (record db { accounts = accounts; cards = cards })
unfolding posting_details
accounts-Stored p accounts cards db stored = stored

insert_account-Stored :
    (p : Posting) (a : Account) (db : Db) → Stored p db → Stored p (insert_account a db).1
unfolding insert_account
insert_account-Stored p a db stored =
    ground (arith, accounts-Stored p (db.accounts ++ a ∷ []) db.cards db stored)

insert_card-Stored :
    (p : Posting) (c : Card) (db : Db) → Stored p db → Stored p (insert_card c db).1
unfolding insert_card
insert_card-Stored p c db stored =
    ground (arith, accounts-Stored p db.accounts (db.cards ++ c ∷ []) db stored)

account_on-append_other :
    (side : EntryType) (rrn : String) (es : List Entry) (e : Entry)
    → e.rrn ≢ rrn
    → account_on side rrn (es ++ e ∷ []) ≡ account_on side rrn es
unfolding account_on
account_on-append_other side rrn [] e h = ground (arith, eq_iff e.rrn rrn)
account_on-append_other side rrn (x ∷ es) e h =
    ground (arith, account_on-append_other side rrn es e h)

-- A posting under another RRN does not touch what is stored under this one.
Stored-posted :
    (now : ℕ) (p q : Posting) (db : Db) → Stored p db → q.rrn ≢ p.rrn → Stored p (posted now q db)
unfolding posting_details posted
Stored-posted now p q db stored other = ground (
  arith,
  stored,
  transaction_named-append p.rrn db.transactions (row_for now q),
  account_on-append_other EntryType.debit p.rrn db.entries
      (entry_for q EntryType.debit q.debit_account) other,
  account_on-append_other EntryType.debit p.rrn
      (db.entries ++ entry_for q EntryType.debit q.debit_account ∷ [])
      (entry_for q EntryType.credit q.credit_account) other,
  account_on-append_other EntryType.credit p.rrn db.entries
      (entry_for q EntryType.debit q.debit_account) other,
  account_on-append_other EntryType.credit p.rrn
      (db.entries ++ entry_for q EntryType.debit q.debit_account ∷ [])
      (entry_for q EntryType.credit q.credit_account) other,
)

-- A stored posting has a row under its RRN.
Stored-is_some :
    (p : Posting) (db : Db) → Stored p db → is_some (transaction_named p.rrn db.transactions) ≡ true
unfolding posting_details
Stored-is_some p db stored = ground arith

new_rrn :
    (p q : Posting) (db : Db)
    → Stored p db
    → is_some (transaction_named q.rrn db.transactions) ≡ false
    → q.rrn ≢ p.rrn
new_rrn p q db stored new same = cc (new, same, Stored-is_some p db stored)

record_posting-Stored :
    (now : ℕ) (p q : Posting) (db : Db) → Stored p db → Stored p (record_posting now q db).1
unfolding outcome
record_posting-Stored now p q db stored =
    rw record_posting-eq-outcome
      (ground (arith, stored, new_rrn p q db stored, Stored-posted now p q db stored))

-- A request that deletes no posting keeps what is stored.
serve-Stored :
    (allowed : Bool) (now : ℕ) (r : Request) (p : Posting) (db : Db)
    → IsKeeping (now, r)
    → Stored p db
    → Stored p (serve allowed now r db)
unfolding serve create_account_route create_posting topup_route topup
serve-Stored allowed now (open_account account_id user_id card_number account_type msisdn) p db k
      stored =
    ground (
      arith,
      create_account-keeps (Stored p) (insert_account-Stored p) (insert_card-Stored p) now
          account_id user_id card_number account_type msisdn db stored,
    )
serve-Stored allowed now (post body) p db k stored =
    ground (arith, record_posting-Stored now p body db stored)
serve-Stored allowed now (top_up rrn account_id amount_cents) p db k stored =
    ground
      (arith, record_posting-Stored now p (funding_posting account_id amount_cents rrn) db stored)
serve-Stored allowed now wipe_postings p db k stored = absurd k
serve-Stored allowed now wipe_all p db k stored = absurd k

serve_all-Stored :
    (allowed : Bool) (requests : List (ℕ × Request)) (p : Posting) (db : Db)
    → All IsKeeping requests
    → Stored p db
    → Stored p (serve_all allowed requests db)
unfolding serve_all
serve_all-Stored allowed [] p db k stored = stored
serve_all-Stored allowed ((now, r) ∷ rest) p db k stored =
    serve_all-Stored allowed rest p (serve allowed now r db) k.1
      (serve-Stored allowed now r p db k.0 stored)

-- A posting that was recorded in a valid ledger is not recorded again: after any requests that
-- delete no posting, the same posting changes nothing, and is answered as already recorded, or as
-- an overdraft where its debit account is a wallet that no longer covers it.
pub recorded_once :
    (allowed : Bool) (now later : ℕ) (requests : List (ℕ × Request)) (p : Posting) (db : Db) (x : ℤ)
    → IsValid db
    → (record_posting now p db).0 ≡ ok (recorded x)
    → All IsKeeping requests
    → let after = serve_all allowed requests (record_posting now p db).1 in
      record_posting later p after ≡ (
        if short p after
        then (
          err (
              insufficient_funds p.debit_account
                (signed_sum p.debit_account after.entries)
                p.amount_cents),
          after,
        )
        else (ok already_recorded, after))
recorded_once allowed now later requests p db x v done k =
    replay_lem later p _
      (serve_all-Stored allowed requests p _ k (recorded-Stored now p db x v done))
