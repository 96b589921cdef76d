-- ===== src/Ledger/Routes.antt =====
-- services/ledger-service/app/main.py: the request bodies and the handlers. A body that pydantic
-- refuses is a 422; an exception that a handler lets through is a 500.
use microfinance_microservic.Common.{
  ℕ, String, Bool, ◌&&◌, Option, none, some, leb, HasEq-text, if◌then◌else◌, List, [], ◌∷◌,
}
use microfinance_microservic.Common.Int.{ℤ, pos, ltb_ℤ}
use microfinance_microservic.Common.Text.{len}
use microfinance_microservic.Ledger.{
  Posting, Posted, record_posting, topup, create_account, ensure_system_accounts, reset, purge,
  owner_of,
}
use microfinance_microservic.Ledger.Balances.{balance}
use microfinance_microservic.Ledger.Resolve.{resolve_account}
use microfinance_microservic.Ledger.Tables.{Db, empty, Error, Result, ok, err}

-- The `detail` of an HTTPException, as far as a caller reads it.
pub data Detail : Type 0 where
  validation_error rejected not_found duplicate_card disabled internal_error : Detail
  rrn_collision : String → Detail
  insufficient_funds : String → ℤ → ℤ → Detail

pub data Reply (A : Type 0) : Type 0 where
  answer : A → Reply A
  http_error : ℕ → Detail → Reply A

-- Field(..., min_length=lo, max_length=hi)
abbrev pub length_within : ℕ → ℕ → String → Bool
length_within lo hi s = leb lo (len s) && leb (len s) hi

-- Field(..., gt=0)
abbrev pub positive : ℤ → Bool
positive amount = ltb_ℤ (pos 0) amount

-- `PostingRequest`
unfoldable pub valid_posting : Posting → Bool
valid_posting body = length_within 6 12 body.rrn && positive body.amount_cents

posting_reply : Result Posted → Reply Posted
posting_reply (ok result) = answer result
posting_reply (err (Error.rrn_collision rrn existing attempted)) =
    http_error 409 (Detail.rrn_collision rrn)
posting_reply (err (Error.insufficient_funds account_id balance_cents amount_cents)) =
    http_error 409 (Detail.insufficient_funds account_id balance_cents amount_cents)
posting_reply (err _) = http_error 422 rejected

-- `create_posting`
unfoldable pub create_posting : ℕ → Posting → Db → Reply Posted × Db
unfolding posting_reply valid_posting
create_posting now body db =
    let (result, db') = record_posting now body db in
    if valid_posting body
    then (posting_reply result, db')
    else (http_error 422 validation_error, db)

topup_reply : Result Posted → Reply Posted
topup_reply (ok result) = answer result
topup_reply (err (Error.rrn_collision rrn existing attempted)) =
    http_error 409 (Detail.rrn_collision rrn)
topup_reply (err _) = http_error 422 rejected

-- `TopupRequest`
unfoldable pub valid_topup : String → ℤ → Bool
valid_topup rrn amount_cents = length_within 6 12 rrn && positive amount_cents

-- `topup`
unfoldable pub topup_route : ℕ → String → String → ℤ → Db → Reply Posted × Db
unfolding topup_reply valid_topup
topup_route now rrn account_id amount_cents db =
    let (result, db') = topup now account_id amount_cents rrn db in
    if valid_topup rrn amount_cents
    then (topup_reply result, db')
    else (http_error 422 validation_error, db)

account_reply : Result String → Reply String
account_reply (ok account_id) = answer account_id
account_reply (err (Error.unique_violation c)) = http_error 409 duplicate_card
account_reply (err _) = http_error 500 internal_error

-- `create_account`
unfoldable pub create_account_route :
    ℕ → String → String → String → String → Option String → Db → Reply String × Db
unfolding account_reply
create_account_route now account_id user_id card_number account_type msisdn db =
    let (result, db') = create_account now account_id user_id card_number account_type msisdn db in
    if length_within 12 19 card_number
    then (account_reply result, db')
    else (http_error 422 validation_error, db)

resolve_reply : Option String → Db → Reply (String × Option String)
resolve_reply none db = http_error 404 not_found
resolve_reply (some account_id) db = answer (account_id, owner_of account_id db)

-- `resolve`
unfoldable pub resolve : (ℕ → Bool) → String → String → Db → Reply (String × Option String)
unfolding resolve_reply
resolve unicode_digit country_code identifier db =
    resolve_reply (resolve_account unicode_digit country_code identifier db) db

-- `balance`
unfoldable pub balance_route : String → Db → Reply ℤ
balance_route account_id db = elim (owner_of account_id db) [
  | none ↦ http_error 404 not_found
  | some user_id ↦ answer (balance account_id db)
]

-- `reset`, behind ALLOW_LEDGER_RESET
unfoldable pub reset_route : Bool → ℕ → Db → Reply (ℕ × ℕ) × Db
reset_route allowed now db =
    let (removed, db') = reset db in
    let (done, db'') = ensure_system_accounts now db' in
    if allowed
    then (elim done [ ok u ↦ answer removed | err e ↦ http_error 500 internal_error ], db'')
    else (http_error 403 disabled, db)

purge_reply : Result (ℕ × ℕ × ℕ × ℕ) → Reply (ℕ × ℕ × ℕ × ℕ)
purge_reply (ok removed) = answer removed
purge_reply (err e) = http_error 500 internal_error

-- `purge`, behind the same flag
unfoldable pub purge_route : Bool → ℕ → Db → Reply (ℕ × ℕ × ℕ × ℕ) × Db
unfolding purge_reply
purge_route allowed now db =
    let (result, db') = purge now db in
    if allowed then (purge_reply result, db') else (http_error 403 disabled, db)

-- The requests that change the ledger.
pub data Request : Type 0 where
  open_account : String → String → String → String → Option String → Request
  post : Posting → Request
  top_up : String → String → ℤ → Request
  wipe_postings wipe_all : Request

-- One request at a time: a transaction holds the write lock, or the account's row.
unfoldable pub serve : Bool → ℕ → Request → Db → Db
unfolding create_account_route create_posting topup_route reset_route purge_route
serve allowed now (open_account account_id user_id card_number account_type msisdn) db =
    (create_account_route now account_id user_id card_number account_type msisdn db).1
serve allowed now (post body) db = (create_posting now body db).1
serve allowed now (top_up rrn account_id amount_cents) db =
    (topup_route now rrn account_id amount_cents db).1
serve allowed now wipe_postings db = (reset_route allowed now db).1
serve allowed now wipe_all db = (purge_route allowed now db).1

-- A run of the service: start-up, then requests, each at its time.
unfoldable pub serve_all : Bool → List (ℕ × Request) → Db → Db
unfolding serve
serve_all allowed [] db = db
serve_all allowed ((now, r) ∷ rest) db = serve_all allowed rest (serve allowed now r db)

-- `init_schema` on an empty database, and `ensure_system_accounts`
unfoldable pub start : ℕ → Db
start now = (ensure_system_accounts now empty).1
