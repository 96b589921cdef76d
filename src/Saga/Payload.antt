-- ===== src/Saga/Payload.antt =====
-- What the saga sends: the amount and the card of the request, and one reference throughout.
use microfinance_microservic.Common.{◌≡◌, String, List, [], ◌∷◌, All, arith}
use microfinance_microservic.Saga.{purchase, purchase_at_risk, purchase_at_switch}
use microfinance_microservic.Saga.Interface.{CallResult, Call, PurchaseRequest, Services, Party}
use microfinance_microservic.Saga.Order.{fresh}
use microfinance_microservic.Saga.Answers.{checked}
use microfinance_microservic.Common.Int.{ℤ}

-- A call that carries money carries the request's amount, and its card where it names one.
abbrev pub Carries : PurchaseRequest → Call → Type 0
Carries body (Call.evaluate card_number amount_cents entry_mode) =
    (card_number ≡ body.card_number)
    × (amount_cents ≡ body.amount_cents)
    × (entry_mode ≡ body.entry_mode)
Carries body (Call.authorize r) =
    (r.card_number ≡ body.card_number) × (r.amount_cents ≡ body.amount_cents) × (r.pin ≡ body.pin)
Carries body (Call.post p) = p.amount_cents ≡ body.amount_cents
Carries body (Call.reverse r) =
    (r.card_number ≡ body.card_number) × (r.amount_cents ≡ body.amount_cents)
Carries body _ = Unit

-- A reversal follows the posting that it undoes, under the same reference.
abbrev pub SameReference : List Call → Type 0
SameReference [] = Unit
SameReference (Call.post p ∷ Call.reverse r ∷ rest) = r.rrn ≡ p.rrn
SameReference (c ∷ rest) = SameReference rest

module _ {W : Type 0} (s : Services W) where
  at_risk-Carries :
      (body : PurchaseRequest) (x y : Party) (a b c : String) (p q : Party) (balance : CallResult ℤ)
      (w : W)
      → All (Carries body) (purchase_at_risk s body x y (checked a b c p q balance w)).1.calls
  unfolding purchase_at_risk purchase_at_switch
  at_risk-Carries body x y a b c p q balance w = ground arith

  -- Every call of a purchase that carries money carries the amount of the request, and its card
  -- where it names one; the switch is sent the request's PIN.
  pub purchase-Carries :
      (body : PurchaseRequest) (w : W) → All (Carries body) (purchase s body (fresh w)).1.calls
  unfolding purchase
  purchase-Carries body w = grind (arith, at_risk-Carries body)

  at_risk-SameReference :
      (body : PurchaseRequest) (x y : Party) (a b c : String) (p q : Party) (balance : CallResult ℤ)
      (w : W)
      → SameReference (purchase_at_risk s body x y (checked a b c p q balance w)).1.calls
  unfolding purchase_at_risk purchase_at_switch
  at_risk-SameReference body x y a b c p q balance w = ground arith

  -- A purchase that is reversed is reversed under the reference that it was posted with.
  pub purchase-SameReference :
      (body : PurchaseRequest) (w : W) → SameReference (purchase s body (fresh w)).1.calls
  unfolding purchase
  purchase-SameReference body w = grind (arith, at_risk-SameReference body)
