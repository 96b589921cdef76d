-- ===== src/HttpClient/Breaker.antt =====
-- When the circuit breaker is open.
use microfinance_microservic.Common.{
  ℕ, suc, ◌+◌, ◌≤◌, ◌<◌, ◌≡◌, refl, false, ◌&&◌, none, some, List, [], ◌∷◌, leb, ltb, length, arith,
}
use microfinance_microservic.HttpClient.{CircuitBreaker, new_breaker, is_open, record_failure}

-- Failures one after another, at these times, the latest first.
abbrev pub failures_at : List ℕ → CircuitBreaker → CircuitBreaker
failures_at [] b = b
failures_at (t ∷ ts) b = record_failure t (failures_at ts b)

-- What a run of failures makes of a new breaker.
failures_at_lem :
    (threshold reset : ℕ) (ts : List ℕ)
    → ((failures_at ts (new_breaker threshold reset)).failures ≡ length ts)
      × ((failures_at ts (new_breaker threshold reset)).failure_threshold ≡ threshold)
      × ((failures_at ts (new_breaker threshold reset)).reset_timeout ≡ reset)
      × (length ts < threshold → (failures_at ts (new_breaker threshold reset)).opened_at ≡ none)
unfolding record_failure
failures_at_lem threshold reset [] = (refl, refl, refl, λ h. refl)
failures_at_lem threshold reset (t ∷ ts) = grind (arith, failures_at_lem threshold reset ts)

-- After one failure or more and no success a breaker is open exactly where the failures are as many
-- as its threshold and the last of them is less than the reset timeout ago.
pub is_open-failures_at :
    (threshold reset t now : ℕ) (ts : List ℕ)
    → (is_open now (failures_at (t ∷ ts) (new_breaker threshold reset))).0
      ≡ (leb threshold (suc (length ts)) && ltb now (t + reset))
unfolding is_open record_failure
is_open-failures_at threshold reset t now ts = grind (arith, failures_at_lem threshold reset ts)

-- Once the cooldown of an open breaker is over, a caller is let through, and so is the one after it,
-- at any time, where the first has recorded nothing yet; a failure opens the breaker again for a
-- whole cooldown.
pub half_open :
    (b : CircuitBreaker) (opened now later failed : ℕ)
    → b.opened_at ≡ some opened
    → opened + b.reset_timeout ≤ now
    → ((is_open now b).0 ≡ false)
      × ((is_open later (is_open now b).1).0 ≡ false)
      × ((is_open later (record_failure failed (is_open now b).1)).0
          ≡ ltb later (failed + b.reset_timeout))
unfolding is_open record_failure
half_open b opened now later failed h over = grind arith
