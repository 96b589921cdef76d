-- ===== src/Ledger/Reach.antt =====
-- The invariant under every request of the service, and in every state that it reaches.
use microfinance_microservic.Common.{
  ℕ, ◌≡◌, refl, String, Bool, true, false, Option, none, some, List, [], ◌∷◌, ◌++◌, arith,
  HasEq-text, ◌==◌, Option-cases, inl, inr,
}
use microfinance_microservic.Common.Int.{ℤ, pos, ◌≤ℤ◌, int_eq_iff}
use microfinance_microservic.Ledger.{
  Posting, create_account, ensure_system_accounts, reset, purge, topup, funding_account,
  ensure_funding, with_result, funding_posting,
}
use microfinance_microservic.Ledger.Balances.{signed_sum, side_sum, is_balanced, balance}
use microfinance_microservic.Ledger.Tables.{
  Account, Card, Db, empty, account_named, insert_account, insert_card, Result, ok, err,
}
use microfinance_microservic.Ledger.Sums.{balance-eq-signed_sum}
use microfinance_microservic.Ledger.Invariant.{
  Refers-mono, IsValid, account_named-append, signed_sum_unknown, record_posting-IsValid,
}
use microfinance_microservic.Ledger.Keeps.{transaction-keeps, create_account-keeps}
use microfinance_microservic.Ledger.Routes.{
  Request, open_account, post, top_up, wipe_postings, wipe_all, serve, serve_all, start,
  create_posting, topup_route, positive, valid_posting, valid_topup,
}

-- A row added to `accounts` under a new identifier.
abbrev with_account : Db → Account → Db
with_account db a = record db { accounts = db.accounts ++ a ∷ [] }

with_account-solvent :
    (a b : Account) (db : Db) (id : String)
    → IsValid db
    → account_named id (with_account db a).accounts ≡ some b
    → (b.kind == "system") ≡ false
    → pos 0 ≤ℤ signed_sum id db.entries
with_account-solvent a b db id v found wallet = elim (Option-cases (account_named id db.accounts)) [
  | inl new ↦ rw (signed_sum_unknown id db db.entries v.refers new) (omega arith)
  | inr (c, old) ↦
      v.solvent id b (ground (arith, old, found, account_named-append id db.accounts a)) wallet
]

with_account-IsValid :
    (a : Account) (db : Db)
    → IsValid db
    → account_named a.account_id db.accounts ≡ none
    → IsValid (with_account db a)
with_account-IsValid a db v new = record {
  refers =
      Refers-mono db (with_account db a) db.entries
        (λ e r. record {
          to_transaction = r.to_transaction;
          to_account =
              ground (arith, r.to_account, account_named-append e.account_id db.accounts a);
        })
        v.refers;
  balanced = v.balanced;
  solvent = λ id b found wallet. with_account-solvent a b db id v found wallet;
}

cards-IsValid : (cards : List Card) (db : Db) → IsValid db → IsValid (record db { cards = cards })
cards-IsValid cards db v = record {
  refers =
      Refers-mono db (record db { cards = cards }) db.entries
        (λ e r. record { to_transaction = r.to_transaction; to_account = r.to_account }) v.refers;
  balanced = v.balanced;
  solvent = v.solvent;
}

insert_account-IsValid : (a : Account) (db : Db) → IsValid db → IsValid (insert_account a db).1
unfolding insert_account
insert_account-IsValid a db v = elim (Option-cases (account_named a.account_id db.accounts)) [
  | inl new ↦ rw (new) (with_account-IsValid a db v new)
  | inr (c, old) ↦ rw (old) v
]

insert_card-IsValid : (c : Card) (db : Db) → IsValid db → IsValid (insert_card c db).1
unfolding insert_card
insert_card-IsValid c db v = ground (arith, cards-IsValid (db.cards ++ c ∷ []) db v)

ensure_funding-IsValid : (now : ℕ) (db : Db) → IsValid db → IsValid (ensure_funding now db).1
unfolding ensure_funding
ensure_funding-IsValid now db v = elim (Option-cases (account_named funding_account db.accounts)) [
  | inl new ↦ rw new (insert_account-IsValid _ db v)
  | inr (c, old) ↦ rw old v
]

ensure_system_accounts-IsValid :
    (now : ℕ) (db : Db) → IsValid db → IsValid (ensure_system_accounts now db).1
unfolding ensure_system_accounts
ensure_system_accounts-IsValid now db v =
    transaction-keeps IsValid (ensure_funding now) db v (ensure_funding-IsValid now db v)

create_account-IsValid :
    (now : ℕ) (account_id user_id card_number account_type : String) (msisdn : Option String)
    (db : Db)
    → IsValid db
    → IsValid (create_account now account_id user_id card_number account_type msisdn db).1
create_account-IsValid = create_account-keeps IsValid insert_account-IsValid insert_card-IsValid

pub empty-IsValid : IsValid empty
unfolding side_sum account_named
empty-IsValid = record { refers = tt; balanced = refl; solvent = λ id a found wallet. cc }

reset-IsValid : (db : Db) → IsValid db → IsValid (reset db).1
unfolding reset side_sum signed_sum
reset-IsValid db v = record {
  refers = tt;
  balanced = refl;
  solvent = λ id a found wallet. omega arith;
}

with_result-IsValid :
    {A B : Type 0} (b : B) (end : Result A × Db) → IsValid end.1 → IsValid (with_result b end).1
unfolding with_result
with_result-IsValid b (ok a, db) v = v
with_result-IsValid b (err e, db) v = v

purge-IsValid : (now : ℕ) (db : Db) → IsValid (purge now db).1
unfolding purge
purge-IsValid now db =
    with_result-IsValid _ (ensure_system_accounts now empty)
      (ensure_system_accounts-IsValid now empty empty-IsValid)

positive-nonneg : (x : ℤ) → positive x ≡ true → pos 0 ≤ℤ x
positive-nonneg x h = ground arith

create_posting-IsValid :
    (now : ℕ) (body : Posting) (db : Db) → IsValid db → IsValid (create_posting now body db).1
unfolding create_posting valid_posting
create_posting-IsValid now body db v =
    ground (arith, record_posting-IsValid now body db, positive-nonneg body.amount_cents)

topup_route-IsValid :
    (now : ℕ) (rrn account_id : String) (amount_cents : ℤ) (db : Db)
    → IsValid db
    → IsValid (topup_route now rrn account_id amount_cents db).1
unfolding topup_route valid_topup topup
topup_route-IsValid now rrn account_id amount_cents db v = ground (
  arith,
  record_posting-IsValid now (funding_posting account_id amount_cents rrn) db,
  positive-nonneg amount_cents,
)

-- One request, served or refused, keeps the ledger valid.
serve-IsValid :
    (allowed : Bool) (now : ℕ) (r : Request) (db : Db)
    → IsValid db
    → IsValid (serve allowed now r db)
unfolding serve
serve-IsValid allowed now (open_account account_id user_id card_number account_type msisdn) db v =
    ground
      (arith, create_account-IsValid now account_id user_id card_number account_type msisdn db v)
serve-IsValid allowed now (post body) db v = create_posting-IsValid now body db v
serve-IsValid allowed now (top_up rrn account_id amount_cents) db v =
    topup_route-IsValid now rrn account_id amount_cents db v
serve-IsValid allowed now wipe_postings db v =
    ground (arith, ensure_system_accounts-IsValid now (reset db).1 (reset-IsValid db v))
serve-IsValid allowed now wipe_all db v = ground (arith, purge-IsValid now db)

serve_all-IsValid :
    (allowed : Bool) (requests : List (ℕ × Request)) (db : Db)
    → IsValid db
    → IsValid (serve_all allowed requests db)
unfolding serve_all
serve_all-IsValid allowed [] db v = v
serve_all-IsValid allowed ((now, r) ∷ rest) db v =
    serve_all-IsValid allowed rest (serve allowed now r db) (serve-IsValid allowed now r db v)

-- The state after a run of requests from the start-up of an empty database is valid.
pub reachable-IsValid :
    (allowed : Bool) (now : ℕ) (requests : List (ℕ × Request))
    → IsValid (serve_all allowed requests (start now))
unfolding start
reachable-IsValid allowed now requests =
    serve_all-IsValid allowed requests _ (ensure_system_accounts-IsValid now empty empty-IsValid)

-- After any run of requests, refused ones included, the ledger balances: `is_balanced` answers
-- true.
pub reachable-is_balanced :
    (allowed : Bool) (now : ℕ) (requests : List (ℕ × Request))
    → is_balanced (serve_all allowed requests (start now)) ≡ true
unfolding is_balanced
reachable-is_balanced allowed now requests =
    (int_eq_iff _ _).1 (reachable-IsValid allowed now requests).balanced

-- After any run of requests, `balance` is not negative at any account whose type is not "system".
pub reachable-wallet_nonneg :
    (allowed : Bool) (now : ℕ) (requests : List (ℕ × Request)) (id : String) (a : Account)
    → account_named id (serve_all allowed requests (start now)).accounts ≡ some a
    → (a.kind == "system") ≡ false
    → pos 0 ≤ℤ balance id (serve_all allowed requests (start now))
reachable-wallet_nonneg allowed now requests id a found wallet =
    rw balance-eq-signed_sum ((reachable-IsValid allowed now requests).solvent id a found wallet)
