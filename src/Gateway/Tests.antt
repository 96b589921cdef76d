-- ===== src/Gateway/Tests.antt =====
-- Runs of the money routes, and instances of the gateway's theorems.
use microfinance_microservic.Common.{
  ℕ, ◌+◌, ◌*◌, ◌≤◌, ◌≡◌, refl, String, true, List, [], ◌∷◌, arith,
}
use microfinance_microservic.Common.Int.{ℤ, pos}
use microfinance_microservic.Gateway.Store.{
  Store, claim, claim_in, claim_found, find, put, live, prune_expired, store_response,
}
use microfinance_microservic.Gateway.Routes.{
  CallResult, answered, unavailable, Call, to_purchase, Reply, returned, State, PurchaseRequest,
  purchase, money_route, on_claim, settled,
}
use microfinance_microservic.Gateway.Once.{
  held, Step, claiming, storing, releasing, granted, granted_once,
}
use microfinance_microservic.Gateway.Replays.{Second, money_route-Second}

abbrev body : PurchaseRequest ℕ
body = record {
  amount = 50;
  card_number = "5555444433332222";
  pin = "1234";
  idempotency_key = "key-0001";
  entry_mode = "05";
}

-- The amounts are whole here, and the hash of a body is its card.
abbrev cents : ℕ → ℤ
cents n = pos (n * 100)

abbrev hash : PurchaseRequest ℕ → String
hash b = b.card_number

-- The world is the clock; a call takes two seconds.
abbrev slow : Call → ℕ → CallResult String × ℕ
slow c w = (answered "approved", w + 2)

abbrev silent : Call → ℕ → CallResult String × ℕ
silent c w = (unavailable "timeout", w + 2)

abbrev start : State ℕ String
start = record { store = record { entries = []; ttl = 86400 }; world = 0; calls = [] }

abbrev clock : ℕ → ℕ
clock w = w

abbrev bought : Reply String × State ℕ String
bought = purchase clock slow cents hash "u1" body start

replayed : (purchase clock silent cents hash "u1" body bought.1).0 ≡ returned "approved"
unfolding purchase money_route on_claim settled claim claim_in claim_found find put live
    prune_expired store_response
replayed = refl

abbrev call : Call
call = to_purchase "u1" "5555444433332222" "1234" (pos 5000) "05"

money_route-Second_example :
    Second true
      (unavailable "timeout")
      call
      (record (money_route clock silent "key-0001" "h" call start).1 { world = 86400 })
      (money_route clock silent "key-0001" "h" call
        (record (money_route clock silent "key-0001" "h" call start).1 { world = 86400 }))
unfolding find live
money_route-Second_example =
    money_route-Second clock silent "key-0001" "h" "h" call call start 86400 refl (omega arith)

-- Two requests race for a key; the first is refused, and the key goes to a third.
abbrev race : List (Step String)
race =
    claiming 0 "k" "h"
    ∷ claiming 1 "k" "h"
    ∷ releasing "k"
    ∷ claiming 2 "k" "h"
    ∷ storing "k" "approved"
    ∷ claiming 3 "k" "h"
    ∷ []

abbrev untouched : Store String
untouched = record { entries = []; ttl = 86400 }

granted_once_example : granted "k" race untouched + held (find "k" untouched.entries) ≤ 2
granted_once_example = granted_once 0 "k" race untouched tt (omega arith)
