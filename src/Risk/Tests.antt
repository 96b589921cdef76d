-- ===== src/Risk/Tests.antt =====
-- Runs of the rules and of the tracker, and instances of their theorems.
use microfinance_microservic.Common.{◌≤◌, ◌≡◌, ◌↔◌, refl, String, [], ◌∷◌, arith}
use microfinance_microservic.Common.Int.{pos}
use microfinance_microservic.Risk.{
  in_memory, Outcome, defaults, decide, evaluate, severity, keyed_entry, review_threshold,
}
use microfinance_microservic.Risk.Rules.{decide_lem, decide_monotone}
use microfinance_microservic.Risk.Window.{History, tracked, count_lem, busy_card_declined}

abbrev card : String
card = "5555444433332222"

-- Six attempts in a minute, after one long ago, and another card's between them.
abbrev history : History
history =
    (150, card)
    ∷ (140, card)
    ∷ (135, "4111111111111111")
    ∷ (130, card)
    ∷ (120, card)
    ∷ (110, card)
    ∷ (10, card)
    ∷ []

keyed_review : decide defaults (pos 250000) "01" 1 ≡ record {
  outcome = Outcome.review;
  reasons = review_threshold (pos 250000) ∷ keyed_entry ∷ [];
}
unfolding decide
keyed_review = refl

decide_lem_example :
    ((decide defaults (pos 250000) "01" 1).outcome ≡ Outcome.review)
    × (((decide defaults (pos 250000) "01" 1).reasons ≡ [])
        ↔ ((decide defaults (pos 250000) "01" 1).outcome ≡ Outcome.approve))
decide_lem_example = decide_lem defaults (pos 250000) "01" 1

decide_monotone_run :
    severity (decide defaults (pos 1000) "05" 2).outcome
    ≤ severity (decide defaults (pos 300000) "05" 4).outcome
decide_monotone_run =
    decide_monotone defaults (pos 1000) (pos 300000) "05" 2 4 (omega arith) (omega arith)

count_lem_example : (in_memory.record_and_count_recent 160 card 60 (tracked 60 history)).0 ≡ 6
count_lem_example = count_lem card 160 60 history (omega arith)

busy_card_declined_run :
    (evaluate in_memory defaults 160 card (pos 1000) "05" (tracked 60 history)).0.outcome
    ≡ Outcome.decline
busy_card_declined_run =
    busy_card_declined defaults card 160 (pos 1000) "05" history (omega arith) (omega arith)
