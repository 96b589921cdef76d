-- ===== src/Saga/Answers.antt =====
-- What the saga tells its caller, beside the calls that it has made.
use microfinance_microservic.Common.{
  ◌≡◌, Bool, true, false, String, List, [], ◌∷◌, map, arith, ◌⊎◌, HasEq-text, some, none,
}
use microfinance_microservic.Common.Int.{ℤ}
use microfinance_microservic.Saga.{
  purchase, purchase_at_risk, purchase_at_switch, transfer, transfer_at_risk, transfer_at_switch,
}
use microfinance_microservic.Saga.Interface.{
  Call, PurchaseRequest, TransferRequest, Services, Trace, Party, Result, ok, raised, Response,
  Status, CallResult, answered, Decision, RiskOutcome, of_resolve, of_balance, of_evaluate,
}
use microfinance_microservic.Saga.Steps.{covered}
use microfinance_microservic.Saga.Verdict.{verdict}
use microfinance_microservic.Saga.Order.{
  Stage, resolving, checking, scoring, authorizing, posting, stage, fresh, IsPrefix, script,
}

-- The stages before the books, up to the switch or up to the risk.
abbrev pub to_switch : List Stage
to_switch = resolving ∷ resolving ∷ checking ∷ scoring ∷ authorizing ∷ []

abbrev pub to_risk : List Stage
to_risk = resolving ∷ resolving ∷ checking ∷ scoring ∷ []

abbrev pub to_books : List Stage
to_books = resolving ∷ resolving ∷ checking ∷ scoring ∷ authorizing ∷ posting ∷ []

-- What a status says of the calls that were made.
abbrev pub Backed : Status → List Stage → Type 0
Backed Status.approved calls = calls ≡ to_books
Backed Status.reversed calls = calls ≡ script
Backed Status.unknown calls = (calls ≡ to_switch) ⊎ (calls ≡ script)
Backed Status.review calls = calls ≡ to_risk
Backed Status.declined calls = IsPrefix calls to_switch

abbrev pub is_unknown : Status → Bool
is_unknown Status.unknown = true
is_unknown _ = false

abbrev pub Told : {W : Type 0} → ℤ → Result Response × Trace W → Type 0
Told amount (ok r, t) =
    Backed r.status (map stage t.calls)
    × (r.requires_reconciliation ≡ is_unknown r.status)
    × (verdict amount t.answers ≡ some (r.status, r.ledger_status))
Told amount (raised status cause, t) =
    IsPrefix (map stage t.calls) to_switch × (verdict amount t.answers ≡ none)

-- The trace of a payment whose balance has been checked, and of one whose risk has been too.
abbrev pub checked :
    {W : Type 0} → String → String → String → Party → Party → CallResult ℤ → W → Trace W
checked a b c p q balance w = record {
  world = w;
  calls = Call.resolve a ∷ Call.resolve b ∷ Call.balance c ∷ [];
  answers = of_resolve (answered p) ∷ of_resolve (answered q) ∷ of_balance balance ∷ [];
}

abbrev scored :
    {W : Type 0}
    → String
    → String
    → String
    → String
    → ℤ
    → String
    → Party
    → Party
    → CallResult ℤ
    → Decision
    → W
    → Trace W
scored a b c d e f p q balance decision w = record {
  world = w;
  calls = Call.resolve a ∷ Call.resolve b ∷ Call.balance c ∷ Call.evaluate d e f ∷ [];
  answers =
      of_resolve (answered p)
      ∷ of_resolve (answered q)
      ∷ of_balance balance
      ∷ of_evaluate (answered decision)
      ∷ [];
}

module _ {W : Type 0} (s : Services W) where
  purchase_at_switch-Told :
      (body : PurchaseRequest) (x y : Party) (a b c d : String) (e : ℤ) (f : String) (p q : Party)
      (balance : CallResult ℤ) (decision : Decision) (w : W)
      → covered s body.amount_cents balance ≡ true
      → decision.outcome ≡ RiskOutcome.approve
      → Told body.amount_cents
          (purchase_at_switch s body x y (scored a b c d e f p q balance decision w))
  unfolding purchase_at_switch covered
  purchase_at_switch-Told body x y a b c d e f p q balance decision w affords safe = ground arith

  purchase_at_risk-Told :
      (body : PurchaseRequest) (x y : Party) (a b c : String) (p q : Party) (balance : CallResult ℤ)
      (w : W)
      → covered s body.amount_cents balance ≡ true
      → Told body.amount_cents (purchase_at_risk s body x y (checked a b c p q balance w))
  unfolding purchase_at_risk covered
  purchase_at_risk-Told body x y a b c p q balance w affords =
      grind (arith, purchase_at_switch-Told body x y a b c)

  -- The status that a purchase returns, with what it tells of the books, is what the answers to its
  -- calls come to: approved, that the switch approved and the ledger answered the posting;
  -- reversed, that the ledger refused the posting or was not reached, and the reversal was
  -- acknowledged; unknown, that the switch could not tell or was not reached, or that the ledger
  -- refused or was not reached and the reversal was not acknowledged; declined, that the balance
  -- was too low, or the risk service or the switch declined; review, that the risk service asked
  -- for it. It raises where they come to none of these, and then the books have not been asked. Its
  -- calls are the ones that the status asks for, in order; reconciliation is asked for with the
  -- status unknown and with no other.
  pub purchase-Told :
      (body : PurchaseRequest) (w : W) → Told body.amount_cents (purchase s body (fresh w))
  unfolding purchase covered
  purchase-Told body w = grind (arith, purchase_at_risk-Told body)

  transfer_at_switch-Told :
      (body : TransferRequest) (x y : Party) (a b c d : String) (e : ℤ) (f : String) (p q : Party)
      (balance : CallResult ℤ) (decision : Decision) (w : W)
      → covered s body.amount_cents balance ≡ true
      → decision.outcome ≡ RiskOutcome.approve
      → Told body.amount_cents
          (transfer_at_switch s body x y (scored a b c d e f p q balance decision w))
  unfolding transfer_at_switch covered
  transfer_at_switch-Told body x y a b c d e f p q balance decision w affords safe = ground arith

  transfer_at_risk-Told :
      (body : TransferRequest) (x y : Party) (a b c : String) (p q : Party) (balance : CallResult ℤ)
      (w : W)
      → covered s body.amount_cents balance ≡ true
      → Told body.amount_cents (transfer_at_risk s body x y (checked a b c p q balance w))
  unfolding transfer_at_risk covered
  transfer_at_risk-Told body x y a b c p q balance w affords =
      grind (arith, transfer_at_switch-Told body x y a b c)

  -- The status that a transfer returns, with what it tells of the books, is what the answers to its calls
  -- come to, by the same rules as a purchase's; it raises where they come to none, and then the books have
  -- not been asked.
  pub transfer-Told :
      (body : TransferRequest) (w : W) → Told body.amount_cents (transfer s body (fresh w))
  unfolding transfer covered
  transfer-Told body w = grind (arith, transfer_at_risk-Told body)
