-- ===== src/HttpClient/Counted.antt =====
-- How often `_request` sends, and what its outcome says of the breaker.
use microfinance_microservic.Common.{
  ℕ, zero, suc, ◌+◌, ◌≤◌, ◌<◌, ◌≡◌, refl, Bool, true, false, none, arith,
}
use microfinance_microservic.HttpClient.{
  CircuitBreaker, is_open, Reply, request_error, response, CallError, breaker_open, Outcome,
  returned, rejected, call_error, undecodable, Transport, State, rounds, request, transport,
  returned_status, on_reply, failed, guarded,
}

-- The breaker is closed again, and forgets its failures.
abbrev pub IsClosed : CircuitBreaker → Type 0
IsClosed b = (b.failures ≡ 0) × (b.opened_at ≡ none)

-- A status that a call fails with is a 5xx.
abbrev pub IsFault : CallError → Type 0
IsFault (returned_status status) = 500 ≤ status
IsFault (transport why) = Unit
IsFault breaker_open = Unit

-- What `n` rounds at most come to, from a state.
abbrev pub Counted : {W A : Type 0} → ℕ → State W → Outcome A × State W → Type 0
Counted n st (returned r, st') =
    (st.sent < st'.sent) × (st'.sent ≤ st.sent + n) × IsClosed st'.breaker
Counted n st (undecodable, st') =
    (st.sent < st'.sent) × (st'.sent ≤ st.sent + n) × IsClosed st'.breaker
Counted n st (rejected status r, st') =
    (400 ≤ status)
    × (status < 500)
    × (st.sent < st'.sent)
    × (st'.sent ≤ st.sent + n)
    × IsClosed st'.breaker
Counted n st (call_error e, st') =
    IsFault e × (st'.sent ≡ st.sent + n) × (st'.breaker.failures ≡ st.breaker.failures + n)

-- What a request comes to: of an open breaker, nothing is sent.
abbrev pub Requested :
    {W A : Type 0} → ℕ → State W → Bool × CircuitBreaker → Outcome A × State W → Type 0
Requested retries st (true, b) (o, st') =
    (o ≡ call_error breaker_open) × (st'.sent ≡ st.sent) × (st'.world ≡ st.world)
Requested retries st (false, b) result = Counted (suc retries) (record st { breaker = b }) result

module _ {W A : Type 0} (http : Transport W A) where
  Counted-again :
      (n : ℕ) (st st' : State W) (result : Outcome A × State W)
      → st'.sent ≡ suc st.sent
      → st'.breaker.failures ≡ suc st.breaker.failures
      → Counted n st' result
      → Counted (suc n) st result
  Counted-again n st st' (returned r, t) hs hf h = ground arith
  Counted-again n st st' (undecodable, t) hs hf h = ground arith
  Counted-again n st st' (rejected status r, t) hs hf h = ground arith
  Counted-again n st st' (call_error e, t) hs hf h = ground arith

  reply-Counted :
      (left attempt : ℕ) (again : CallError → State W → Outcome A × State W) (b : CircuitBreaker)
      (w : W) (sent : ℕ) (r : Reply A × W)
      → ((e : CallError) (st : State W) → IsFault e → Counted left st (again e st))
      → Counted
          (suc left)
          (record { breaker = b; world = w; sent = sent })
          (on_reply http again left attempt b sent r)
  unfolding on_reply
  reply-Counted left attempt again b w sent (request_error e, w') h =
      Counted-again left (record { breaker = b; world = w; sent = sent })
        (failed http left attempt b w' sent)
        (again (transport e) (failed http left attempt b w' sent)) refl refl
        (h (transport e) (failed http left attempt b w' sent) tt)
  reply-Counted left attempt again b w sent (response status r, w') h = grind (
    arith,
    λ (c : Counted left (failed http left attempt b w' sent)
          (again (returned_status status) (failed http left attempt b w' sent))).
        Counted-again left (record { breaker = b; world = w; sent = sent })
          (failed http left attempt b w' sent)
          (again (returned_status status) (failed http left attempt b w' sent)) refl refl c,
    h (returned_status status) (failed http left attempt b w' sent),
  )

  rounds-Counted :
      (n attempt : ℕ) (e : CallError) (st : State W)
      → IsFault e
      → Counted n st (rounds http n attempt e st)
  unfolding rounds
  rounds-Counted zero attempt e st fault = (fault, omega arith, omega arith)
  rounds-Counted (suc left) attempt e st fault =
      reply-Counted left attempt (rounds http left (suc attempt)) st.breaker st.world st.sent
        (http.send st.world) (rounds-Counted left (suc attempt))

  guarded-Requested :
      (retries : ℕ) (st : State W) (o : Bool × CircuitBreaker)
      → Requested retries st o (guarded http retries st.world st.sent o)
  unfolding guarded
  guarded-Requested retries st (true, b) = (refl, refl, refl)
  guarded-Requested retries st (false, b) =
      rounds-Counted (suc retries) 0 breaker_open (record st { breaker = b }) tt

  -- A request with an open breaker sends nothing. With a closed one it sends once at least where it
  -- returns, raises on a response that is no JSON, or is rejected, which only a 4xx does, and never more than one time more than its
  -- retries, and leaves the breaker closed with no failure counted; it fails only after it has sent
  -- as often as that, never with a status below 500, and each time adds a failure to the breaker's
  -- count.
  pub request-Requested :
      (retries : ℕ) (st : State W)
      → Requested retries st (is_open (http.now st.world) st.breaker) (request http retries st)
  unfolding request
  request-Requested retries st =
      guarded-Requested retries st (is_open (http.now st.world) st.breaker)

  -- Without retries a closed breaker's request sends exactly once, whatever comes of it.
  pub request_once :
      (st : State W)
      → (is_open (http.now st.world) st.breaker).0 ≡ false
      → (request http 0 st).1.sent ≡ suc st.sent
  unfolding request rounds on_reply
  request_once st closed = ground arith
