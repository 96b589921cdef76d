-- ===== src/Risk.antt =====
-- services/risk-service/app/rules.py and velocity.py: the rules, on a velocity tracker of any kind,
-- and the tracker that keeps its attempts in memory. Time is the clock's, as a number; a reason is
-- kept by the rule that gave it and the values that its text shows.
pub mod Window
pub mod Rules
mod Tests
use microfinance_microservic.Common.{
  ℕ, ◌+◌, String, Bool, true, false, ◌&&◌, List, [], ◌∷◌, ◌++◌, HasEq-text, ◌==◌, if◌then◌else◌,
  leb, ltb, length,
}
use microfinance_microservic.Common.Int.{ℤ, pos, ltb_ℤ}
use microfinance_microservic.Common.Text.{len}

-- The interface of velocity.py: records an attempt now, and counts those in the window.
pub record VelocityTracker (S : Type 0) : Type 0 where
  pub record_and_count_recent : ℕ → String → ℕ → S → ℕ × S

-- `_recent_attempts`: the attempts of each card, the latest last
pub record CardAttempts : Type 0 where
  pub card_number : String
  pub times : List ℕ

abbrev pub Attempts : Type 0
Attempts = List CardAttempts

unfoldable pub attempts_of : String → Attempts → List ℕ
attempts_of card_number [] = []
attempts_of card_number (c ∷ rest) =
    if c.card_number == card_number then c.times else attempts_of card_number rest

unfoldable pub set_attempts : String → List ℕ → Attempts → Attempts
set_attempts card_number times [] = record { card_number = card_number; times = times } ∷ []
set_attempts card_number times (c ∷ rest) =
    let others = set_attempts card_number times rest in
    if c.card_number == card_number then record c { times = times } ∷ rest else c ∷ others

-- [t for t in attempts if t >= now - window]
unfoldable pub recent : ℕ → ℕ → List ℕ → List ℕ
recent now window [] = []
recent now window (t ∷ ts) =
    let rest = recent now window ts in if leb now (t + window) then t ∷ rest else rest

abbrev recorded : ℕ → String → ℕ → List ℕ → Attempts → ℕ × Attempts
recorded now card_number window attempts s = (
  length (recent now window (attempts ++ now ∷ [])),
  set_attempts card_number (recent now window (attempts ++ now ∷ [])) s,
)

-- `InMemoryVelocityTracker`
abbrev pub in_memory : VelocityTracker Attempts
in_memory = record {
  record_and_count_recent =
      λ now card_number window s. recorded now card_number window (attempts_of card_number s) s;
}

pub data Outcome : Type 0 where
  approve review decline : Outcome

-- `_SEVERITY`
unfoldable pub severity : Outcome → ℕ
severity Outcome.approve = 0
severity Outcome.review = 1
severity Outcome.decline = 2

pub data Reason : Type 0 where
  velocity_limit elevated_velocity : ℕ → Reason
  hard_limit review_threshold : ℤ → Reason
  keyed_entry : Reason

pub record RiskDecision : Type 0 where
  pub outcome : Outcome
  pub reasons : List Reason

pub record Config : Type 0 where
  pub velocity_window_seconds : ℕ
  pub velocity_decline_count : ℕ
  pub velocity_review_count : ℕ
  pub amount_decline_cents : ℤ
  pub amount_review_cents : ℤ
  pub manual_entry_review_cents : ℤ

-- The defaults
abbrev pub defaults : Config
defaults = record {
  velocity_window_seconds = 60;
  velocity_decline_count = 5;
  velocity_review_count = 3;
  amount_decline_cents = pos 1000000;
  amount_review_cents = pos 200000;
  manual_entry_review_cents = pos 50000;
}

-- `escalate`
unfoldable pub escalate : Outcome → Reason → RiskDecision → RiskDecision
unfolding severity
escalate new_outcome reason d = record {
  outcome = if ltb (severity d.outcome) (severity new_outcome) then new_outcome else d.outcome;
  reasons = d.reasons ++ reason ∷ [];
}

unfoldable pub velocity_rule : Config → ℕ → RiskDecision → RiskDecision
unfolding escalate
velocity_rule config recent_count d =
    if ltb config.velocity_decline_count recent_count
    then escalate Outcome.decline (velocity_limit recent_count) d
    else if ltb config.velocity_review_count recent_count
    then escalate Outcome.review (elevated_velocity recent_count) d
    else d

unfoldable pub amount_rule : Config → ℤ → RiskDecision → RiskDecision
unfolding escalate
amount_rule config amount_cents d =
    if ltb_ℤ config.amount_decline_cents amount_cents
    then escalate Outcome.decline (hard_limit amount_cents) d
    else if ltb_ℤ config.amount_review_cents amount_cents
    then escalate Outcome.review (review_threshold amount_cents) d
    else d

unfoldable pub entry_rule : Config → ℤ → String → RiskDecision → RiskDecision
unfolding escalate
entry_rule config amount_cents entry_mode d =
    if entry_mode == "01" && ltb_ℤ config.manual_entry_review_cents amount_cents
    then escalate Outcome.review keyed_entry d
    else d

-- The rules in their order, once the attempts are counted
unfoldable pub decide : Config → ℤ → String → ℕ → RiskDecision
unfolding velocity_rule amount_rule entry_rule
decide config amount_cents entry_mode recent_count = entry_rule config amount_cents entry_mode (
    amount_rule config amount_cents
      (velocity_rule config recent_count (record { outcome = Outcome.approve; reasons = [] })))

abbrev pub counted : Config → ℤ → String → {S : Type 0} → ℕ × S → RiskDecision × S
counted config amount_cents entry_mode (recent_count, s) =
    (decide config amount_cents entry_mode recent_count, s)

module _ {S : Type 0} (tracker : VelocityTracker S) (config : Config) where
  -- `RiskEngine.evaluate`, at a time
  unfoldable pub evaluate : ℕ → String → ℤ → String → S → RiskDecision × S
  unfolding decide
  evaluate now card_number amount_cents entry_mode s =
      counted config amount_cents entry_mode
        (tracker.record_and_count_recent now card_number config.velocity_window_seconds s)

-- The limits of `EvaluateRequest`
unfoldable pub valid_evaluate : String → ℤ → Bool
valid_evaluate card_number amount_cents =
    leb 12 (len card_number) && leb (len card_number) 19 && ltb_ℤ (pos 0) amount_cents
