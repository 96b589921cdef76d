-- ===== src/HttpClient.antt =====
-- libs/mfcommon/mfcommon/http/client.py: the circuit breaker and the retry loop of `_request`.
-- httpx, the clock and the sleep are the functions of `Transport` on a world `W`; a response is
-- kept whole, with whether `response.json()` reads it. Time is a number of milliseconds.
pub mod Counted
pub mod Breaker
mod Tests
use microfinance_microservic.Common.{
  ℕ, zero, suc, ◌+◌, ◌-◌, ◌*◌, ◌^◌, String, Bool, true, false, Option, none, some, List, [], ◌∷◌,
  ◌++◌, leb, ltb, if◌then◌else◌,
}

pub record CircuitBreaker : Type 0 where
  pub failure_threshold : ℕ
  pub reset_timeout : ℕ
  pub failures : ℕ
  pub opened_at : Option ℕ

-- `CircuitBreaker(failure_threshold, reset_timeout)`
abbrev pub new_breaker : ℕ → ℕ → CircuitBreaker
new_breaker failure_threshold reset_timeout = record {
  failure_threshold = failure_threshold;
  reset_timeout = reset_timeout;
  failures = 0;
  opened_at = none;
}

-- `is_open` where `_opened_at` is this; past the cooldown it closes the breaker one failure short
-- of the threshold
unfoldable pub is_open_since : Option ℕ → ℕ → CircuitBreaker → Bool × CircuitBreaker
is_open_since none now b = (false, b)
is_open_since (some t) now b =
    if leb (t + b.reset_timeout) now
    then (false, record b { opened_at = none; failures = b.failure_threshold - 1 })
    else (true, b)

-- `is_open`, at a time
unfoldable pub is_open : ℕ → CircuitBreaker → Bool × CircuitBreaker
unfolding is_open_since
is_open now b = is_open_since b.opened_at now b

unfoldable pub record_success : CircuitBreaker → CircuitBreaker
record_success b = record b { failures = 0; opened_at = none }

unfoldable pub record_failure : ℕ → CircuitBreaker → CircuitBreaker
record_failure now b = record b {
  failures = suc b.failures;
  opened_at = if leb b.failure_threshold (suc b.failures) then some now else b.opened_at;
}

-- What one `httpx` request comes to
pub data Reply (A : Type 0) : Type 0 where
  request_error : String → Reply A
  response : ℕ → A → Reply A

pub data CallError : Type 0 where
  breaker_open : CallError
  transport : String → CallError
  returned_status : ℕ → CallError

-- What `_request` returns, or raises: a ServiceRejectedError, a ServiceCallError, or what `response.json()`
-- raises of a response that is no JSON
pub data Outcome (A : Type 0) : Type 0 where
  returned : A → Outcome A
  rejected : ℕ → A → Outcome A
  call_error : CallError → Outcome A
  undecodable : Outcome A

pub record Transport (W A : Type 0) : Type 0 where
  pub send : W → Reply A × W
  pub now : W → ℕ
  pub sleep : ℕ → W → W
  pub is_json : A → Bool

-- The client's breaker and its world, with the number of requests sent
pub record State (W : Type 0) : Type 0 where
  pub breaker : CircuitBreaker
  pub world : W
  pub sent : ℕ

-- min(0.1 * 2 ** attempt, 2.0) seconds
unfoldable pub backoff : ℕ → ℕ
backoff attempt = let delay = 100 * 2 ^ attempt in if leb delay 2000 then delay else 2000

module _ {W A : Type 0} (http : Transport W A) where
  -- The failure of an attempt with `left` more to come, and the sleep before the next
  unfoldable pub failed : ℕ → ℕ → CircuitBreaker → W → ℕ → State W
  unfolding record_failure backoff
  failed left attempt b w sent = record {
    breaker = record_failure (http.now w) b;
    world = if leb 1 left then http.sleep (backoff (suc attempt)) w else w;
    sent = suc sent;
  }

  unfoldable pub succeeded : CircuitBreaker → W → ℕ → State W
  unfolding record_success
  succeeded b w sent = record { breaker = record_success b; world = w; sent = suc sent }

  abbrev pub decoded : A → Outcome A
  decoded r = if http.is_json r then returned r else undecodable

  -- What the loop makes of a reply; `again` is its next round
  unfoldable pub on_reply :
      (CallError → State W → Outcome A × State W)
      → ℕ
      → ℕ
      → CircuitBreaker
      → ℕ
      → Reply A × W
      → Outcome A × State W
  unfolding failed succeeded
  on_reply again left attempt b sent (request_error e, w) =
      again (transport e) (failed left attempt b w sent)
  on_reply again left attempt b sent (response status r, w) =
      if leb 500 status
      then again (returned_status status) (failed left attempt b w sent)
      else if leb 400 status
      then (rejected status r, succeeded b w sent)
      else (decoded r, succeeded b w sent)

  -- `while attempt <= retries`, by the rounds that are left
  unfoldable pub rounds : ℕ → ℕ → CallError → State W → Outcome A × State W
  unfolding on_reply
  rounds zero attempt last_error st = (call_error last_error, st)
  rounds (suc left) attempt last_error st =
      on_reply (rounds left (suc attempt)) left attempt st.breaker st.sent (http.send st.world)

  unfoldable pub guarded : ℕ → W → ℕ → Bool × CircuitBreaker → Outcome A × State W
  unfolding rounds
  guarded retries w sent (true, b) =
      (call_error breaker_open, record { breaker = b; world = w; sent = sent })
  guarded retries w sent (false, b) =
      rounds (suc retries) 0 breaker_open (record { breaker = b; world = w; sent = sent })

  -- `_request`; with retries, a last error is always set before it is raised
  unfoldable pub request : ℕ → State W → Outcome A × State W
  unfolding guarded is_open
  request retries st = guarded retries st.world st.sent (is_open (http.now st.world) st.breaker)

  -- `get`, by default
  unfoldable pub get : State W → Outcome A × State W
  unfolding request
  get st = request 2 st

  -- `post`, by default
  unfoldable pub post : State W → Outcome A × State W
  unfolding request
  post st = request 0 st
