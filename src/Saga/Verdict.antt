-- ===== src/Saga/Verdict.antt =====
-- What the answers to a payment's calls come to, read without the code of the saga: a status with what is
-- told of the books, or none where the payment raises.
use microfinance_microservic.Common.{Option, none, some, List, [], ◌∷◌, if◌then◌else◌}
use microfinance_microservic.Common.Int.{ℤ, leb_ℤ}
use microfinance_microservic.Saga.Interface.{
  answered, rejected, unreachable, RiskOutcome, AuthOutcome, LedgerStatus, posted, Status, Answer,
  of_resolve, of_balance, of_evaluate, of_authorize, of_post, of_reverse, of_top_up,
  is_rrn_collision, PostStatus,
}

abbrev pub Verdict : Type 0
Verdict = Option (Status × Option LedgerStatus)

-- Nothing was asked after that.
abbrev pub ending : Verdict → List Answer → Verdict
ending v [] = v
ending v (a ∷ rest) = none

-- A posting that was not answered: reversed where the reversal was acknowledged
abbrev pub of_reversal : List Answer → Verdict
of_reversal (of_reverse (answered u) ∷ rest) =
    ending (some (Status.reversed, some LedgerStatus.reversed)) rest
of_reversal (of_reverse _ ∷ rest) =
    ending (some (Status.unknown, some LedgerStatus.reconciliation_required)) rest
of_reversal _ = none

abbrev pub of_books : List Answer → Verdict
of_books (of_post (answered status) ∷ rest) =
    ending (some (Status.approved, some (posted status))) rest
of_books (of_post _ ∷ rest) = of_reversal rest
of_books _ = none

abbrev pub of_outcome : AuthOutcome → List Answer → Verdict
of_outcome AuthOutcome.approved rest = of_books rest
of_outcome AuthOutcome.declined rest = ending (some (Status.declined, none)) rest
of_outcome AuthOutcome.unknown rest = ending (some (Status.unknown, none)) rest

abbrev pub of_switch : List Answer → Verdict
of_switch (of_authorize (answered auth) ∷ rest) = of_outcome auth.outcome rest
of_switch (of_authorize (unreachable why) ∷ rest) = ending (some (Status.unknown, none)) rest
of_switch _ = none

abbrev pub of_decision : RiskOutcome → List Answer → Verdict
of_decision RiskOutcome.approve rest = of_switch rest
of_decision RiskOutcome.review rest = ending (some (Status.review, none)) rest
of_decision RiskOutcome.decline rest = ending (some (Status.declined, none)) rest

abbrev pub of_risk : List Answer → Verdict
of_risk (of_evaluate (answered decision) ∷ rest) = of_decision decision.outcome rest
of_risk _ = none

-- A balance that is not told is not held against the payment.
abbrev pub of_funds : ℤ → List Answer → Verdict
of_funds amount (of_balance (answered balance) ∷ rest) =
    if leb_ℤ amount balance then of_risk rest else ending (some (Status.declined, none)) rest
of_funds amount (of_balance _ ∷ rest) = of_risk rest
of_funds amount _ = none

-- Of a purchase or a transfer of the amount
abbrev pub verdict : ℤ → List Answer → Verdict
verdict amount (of_resolve (answered sender) ∷ of_resolve (answered other) ∷ rest) =
    of_funds amount rest
verdict amount _ = none

-- Of a top-up: the ledger's status, behind collisions of references only
abbrev pub of_attempts : List Answer → Option PostStatus
of_attempts [] = none
of_attempts (of_top_up (answered status) ∷ []) = some status
of_attempts (of_top_up (rejected status detail) ∷ rest) =
    if is_rrn_collision detail then of_attempts rest else none
of_attempts (a ∷ rest) = none

abbrev pub credit : List Answer → Option PostStatus
credit (of_resolve (answered party) ∷ rest) = of_attempts rest
credit _ = none
