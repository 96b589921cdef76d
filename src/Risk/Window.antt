-- ===== src/Risk/Window.antt =====
-- The sliding window of the tracker in memory.
use microfinance_microservic.Common.{
  ℕ, ◌+◌, ◌≤◌, ◌<◌, ◌≡◌, refl, String, ◌&&◌, List, [], ◌∷◌, ◌++◌, HasEq-text, ◌==◌, eq_iff,
  if◌then◌else◌, leb, length, All, arith,
}
use microfinance_microservic.Common.Int.{ℤ}
use microfinance_microservic.Risk.{
  Attempts, attempts_of, set_attempts, recent, in_memory, Config, Outcome, evaluate,
}
use microfinance_microservic.Risk.Rules.{decide_lem}

-- The attempts so far, the latest first: when, and with which card.
abbrev pub History : Type 0
History = List (ℕ × String)

-- The tracker's state after them.
abbrev pub tracked : ℕ → History → Attempts
tracked window [] = []
tracked window ((t, card_number) ∷ h) =
    (in_memory.record_and_count_recent t card_number window (tracked window h)).1

-- None is later than a time, and the clock never went back.
abbrev pub Upto : ℕ → History → Type 0
Upto now h = All (λ (e : ℕ × String). e.0 ≤ now) h

abbrev pub IsOrdered : History → Type 0
IsOrdered [] = Unit
IsOrdered (e ∷ h) = Upto e.0 h × IsOrdered h

-- How many attempts with a card are in the window.
abbrev pub attempts_within : String → ℕ → ℕ → History → ℕ
attempts_within card_number now window [] = 0
attempts_within card_number now window ((t, c) ∷ h) =
    (if c == card_number && leb now (t + window) then 1 else 0)
    + attempts_within card_number now window h

attempts_of-set_attempts :
    (c d : String) (ts : List ℕ) (s : Attempts)
    → attempts_of c (set_attempts d ts s) ≡ (if d == c then ts else attempts_of c s)
unfolding attempts_of set_attempts
attempts_of-set_attempts c d ts [] = refl
attempts_of-set_attempts c d ts (x ∷ s) = ground (
  arith,
  attempts_of-set_attempts c d ts s,
  eq_iff x.card_number d,
  eq_iff x.card_number c,
  eq_iff d c,
)

recent-recent :
    (now t window : ℕ) (xs : List ℕ)
    → t ≤ now
    → recent now window (recent t window xs) ≡ recent now window xs
unfolding recent
recent-recent now t window [] h = refl
recent-recent now t window (x ∷ xs) h = grind (arith, recent-recent now t window xs h)

recent_append :
    (now window y : ℕ) (xs : List ℕ)
    → length (recent now window (xs ++ y ∷ []))
      ≡ (if leb now (y + window) then 1 else 0) + length (recent now window xs)
unfolding recent
recent_append now window y [] = ground arith
recent_append now window y (x ∷ xs) = grind (arith, recent_append now window y xs)

tracked_lem :
    (c : String) (now window : ℕ) (h : History)
    → Upto now h
    → IsOrdered h
    → length (recent now window (attempts_of c (tracked window h))) ≡ attempts_within c now window h
unfolding attempts_of recent
tracked_lem c now window [] upto ordered = refl
tracked_lem c now window ((t, d) ∷ h) upto ordered = grind (
  arith,
  attempts_of-set_attempts c d (recent t window (attempts_of d (tracked window h) ++ t ∷ []))
      (tracked window h),
  recent-recent now t window (attempts_of d (tracked window h) ++ t ∷ []) upto.0,
  recent_append now window t (attempts_of d (tracked window h)),
  tracked_lem c now window h upto.1 ordered.1,
  tracked_lem d now window h upto.1 ordered.1,
  eq_iff d c,
)

-- With one window and a clock that never goes back, the tracker counts the attempts with the card
-- that the window holds, the new one among them, of all that were ever made: what it forgets no
-- later count would have held.
pub count_lem :
    (card_number : String) (t window : ℕ) (h : History)
    → IsOrdered ((t, card_number) ∷ h)
    → (in_memory.record_and_count_recent t card_number window (tracked window h)).0
      ≡ attempts_within card_number t window ((t, card_number) ∷ h)
count_lem card_number t window h ordered = grind (
  arith,
  recent_append t window t (attempts_of card_number (tracked window h)),
  tracked_lem card_number t window h ordered.0 ordered.1,
  eq_iff card_number card_number,
)

-- Under the same conditions a payment is declined where the window holds more attempts with the card
-- than the limit, this one among them.
pub busy_card_declined :
    (config : Config) (card_number : String) (t : ℕ) (amount : ℤ) (entry_mode : String)
    (h : History)
    → IsOrdered ((t, card_number) ∷ h)
    → config.velocity_decline_count
      < attempts_within card_number t config.velocity_window_seconds ((t, card_number) ∷ h)
    → (evaluate in_memory config t card_number amount entry_mode
        (tracked config.velocity_window_seconds h)).0.outcome
      ≡ Outcome.decline
unfolding evaluate
busy_card_declined config card_number t amount entry_mode h ordered busy = grind (
  arith,
  count_lem card_number t config.velocity_window_seconds h ordered,
  λ (n : ℕ). (decide_lem config amount entry_mode n).0,
)
