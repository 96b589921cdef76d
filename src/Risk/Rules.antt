-- ===== src/Risk/Rules.antt =====
-- What the rules decide.
use microfinance_microservic.Common.{
  ℕ, ◌≤◌, ◌≡◌, ◌↔◌, String, Bool, true, ◌&&◌, ◌||◌, [], HasEq-text, ◌==◌, if◌then◌else◌, ltb, arith,
}
use microfinance_microservic.Common.Int.{ℤ, ltb_ℤ, ◌≤ℤ◌}
use microfinance_microservic.Risk.{Config, Outcome, severity, decide}

-- A rule that declines applies.
abbrev pub must_decline : Config → ℤ → ℕ → Bool
must_decline config amount recent_count =
    ltb config.velocity_decline_count recent_count || ltb_ℤ config.amount_decline_cents amount

-- A rule that asks for a review applies.
abbrev pub must_review : Config → ℤ → String → ℕ → Bool
must_review config amount entry_mode recent_count =
    ltb config.velocity_review_count recent_count
    || ltb_ℤ config.amount_review_cents amount
    || (entry_mode == "01" && ltb_ℤ config.manual_entry_review_cents amount)

-- The decision is to decline where a limit is exceeded, to review where none is but a threshold is,
-- and to approve otherwise; it has a reason exactly where it does not approve.
pub decide_lem :
    (config : Config) (amount : ℤ) (entry_mode : String) (recent_count : ℕ)
    → ((decide config amount entry_mode recent_count).outcome ≡ (
        if must_decline config amount recent_count
        then Outcome.decline
        else if must_review config amount entry_mode recent_count
        then Outcome.review
        else Outcome.approve))
      × (((decide config amount entry_mode recent_count).reasons ≡ [])
          ↔ ((decide config amount entry_mode recent_count).outcome ≡ Outcome.approve))
unfolding decide
decide_lem config amount entry_mode recent_count = ground arith

abbrev level : Bool → Bool → Outcome
level declines reviews =
    if declines then Outcome.decline else if reviews then Outcome.review else Outcome.approve

severity-level :
    (d d' r r' : Bool)
    → (d ≡ true → d' ≡ true)
    → (r ≡ true → r' ≡ true)
    → severity (level d r) ≤ severity (level d' r')
unfolding severity
severity-level d d' r r' hd hr = ground arith

must_decline_monotone :
    (config : Config) (a b : ℤ) (m n : ℕ)
    → a ≤ℤ b
    → m ≤ n
    → must_decline config a m ≡ true
    → must_decline config b n ≡ true
must_decline_monotone config a b m n hab hmn h = ground arith

must_review_monotone :
    (config : Config) (a b : ℤ) (entry_mode : String) (m n : ℕ)
    → a ≤ℤ b
    → m ≤ n
    → must_review config a entry_mode m ≡ true
    → must_review config b entry_mode n ≡ true
must_review_monotone config a b entry_mode m n hab hmn h = ground arith

-- A larger amount, or more attempts in the window, never makes the decision milder.
pub decide_monotone :
    (config : Config) (a b : ℤ) (entry_mode : String) (m n : ℕ)
    → a ≤ℤ b
    → m ≤ n
    → severity (decide config a entry_mode m).outcome
      ≤ severity (decide config b entry_mode n).outcome
decide_monotone config a b entry_mode m n hab hmn =
    rw ((decide_lem config a entry_mode m).0, (decide_lem config b entry_mode n).0)
      (severity-level (must_decline config a m) (must_decline config b n)
        (must_review config a entry_mode m) (must_review config b entry_mode n)
        (must_decline_monotone config a b m n hab hmn)
        (must_review_monotone config a b entry_mode m n hab hmn))
