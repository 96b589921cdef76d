-- ===== src/HttpClient/Tests.antt =====
-- Runs of the client against a scripted transport, and instances of its theorems.
use microfinance_microservic.Common.{
  ℕ, ◌+◌, ◌≡◌, ◌&&◌, refl, true, false, some, List, [], ◌∷◌, leb, ltb, arith,
}
use microfinance_microservic.HttpClient.{
  CircuitBreaker, new_breaker, is_open, record_failure, record_success, Reply, request_error,
  response, returned, Transport, State, request, rounds, on_reply, backoff,
}
use microfinance_microservic.HttpClient.Counted.{Requested, request-Requested, request_once}
use microfinance_microservic.HttpClient.Breaker.{failures_at, is_open-failures_at, half_open}

record Script : Type 0 where
  replies : List (Reply ℕ)
  time : ℕ

abbrev next : List (Reply ℕ) → ℕ → Reply ℕ × Script
next [] t = (request_error "connection refused", record { replies = []; time = t })
next (r ∷ rs) t = (r, record { replies = rs; time = t })

abbrev scripted : Transport Script ℕ
scripted = record {
  send = λ w. next w.replies (w.time + 10);
  now = λ w. w.time;
  sleep = λ ms w. record { replies = w.replies; time = w.time + ms };
  is_json = λ r. true;
}

abbrev from : List (Reply ℕ) → State Script
from rs = record {
  breaker = new_breaker 5 30000;
  world = record { replies = rs; time = 0 };
  sent = 0;
}

abbrev flaky : State Script
flaky = from (request_error "timeout" ∷ response 503 0 ∷ response 200 7 ∷ [])

recovered : request scripted 2 flaky ≡ (
  returned 7,
  record { breaker = new_breaker 5 30000; world = record { replies = []; time = 630 }; sent = 3 },
)
unfolding request rounds on_reply is_open record_failure record_success backoff
recovered = refl

request-Requested_example :
    Requested 2 flaky (is_open 0 (new_breaker 5 30000)) (request scripted 2 flaky)
request-Requested_example = request-Requested scripted 2 flaky

request_once_run : (request scripted 0 flaky).1.sent ≡ 1
unfolding is_open
request_once_run = request_once scripted flaky refl

is_open-failures_at_run :
    (is_open 30039 (failures_at (40 ∷ 30 ∷ 20 ∷ 10 ∷ 0 ∷ []) (new_breaker 5 30000))).0
    ≡ (leb 5 5 && ltb 30039 30040)
is_open-failures_at_run = is_open-failures_at 5 30000 40 30039 (30 ∷ 20 ∷ 10 ∷ 0 ∷ [])

abbrev tripped : CircuitBreaker
tripped = record { failure_threshold = 5; reset_timeout = 30000; failures = 5; opened_at = some 40 }

half_open_run :
    ((is_open 30040 tripped).0 ≡ false)
    × ((is_open 30040 (is_open 30040 tripped).1).0 ≡ false)
    × ((is_open 30040 (record_failure 30040 (is_open 30040 tripped).1)).0 ≡ true)
half_open_run = half_open tripped 40 30040 30040 30040 refl (omega arith)
