-- ===== src/Saga/Guards.antt =====
-- What stops a payment before the switch.
use microfinance_microservic.Common.{
  ◌≡◌, ◌≢◌, false, some, String, List, [], ◌∷◌, map, arith, option_eq_iff, HasEq-text, eq_iff,
}
use microfinance_microservic.Common.Int.{ℤ, ◌<ℤ◌}
use microfinance_microservic.Saga.{purchase, purchase_at_risk, transfer}
use microfinance_microservic.Saga.Interface.{
  PurchaseRequest, TransferRequest, Services, Party, CallResult, answered, rejected, unreachable,
  Decision, RiskOutcome,
}
use microfinance_microservic.Saga.Steps.{covered}
use microfinance_microservic.Saga.Order.{Stage, resolving, checking, stage, fresh, IsPrefix}
use microfinance_microservic.Saga.Answers.{to_risk, checked}

abbrev pub to_resolution : List Stage
to_resolution = resolving ∷ resolving ∷ []

abbrev pub to_balance : List Stage
to_balance = resolving ∷ resolving ∷ checking ∷ []

-- The risk service did not approve.
abbrev pub NotApproved : CallResult Decision → Type 0
NotApproved (answered d) = d.outcome ≢ RiskOutcome.approve
NotApproved (rejected status detail) = Unit
NotApproved (unreachable why) = Unit

-- The balance is known and does not cover the amount.
abbrev pub TooLow : ℤ → CallResult ℤ → Type 0
TooLow amount (answered balance_cents) = balance_cents <ℤ amount
TooLow amount (rejected status detail) = ⊥
TooLow amount (unreachable why) = ⊥

module _ {W : Type 0} (s : Services W) where
  -- A purchase with a card that another user owns, or nobody, makes no call but the two lookups.
  pub purchase_unowned :
      (body : PurchaseRequest) (sender : Party) (w w' : W)
      → s.resolve body.card_number w ≡ (answered sender, w')
      → sender.user_id ≢ some body.user_id
      → IsPrefix (map stage (purchase s body (fresh w)).1.calls) to_resolution
  unfolding purchase
  purchase_unowned body sender w w' owner other =
      ground (arith, option_eq_iff sender.user_id (some body.user_id))

  -- A transfer whose two sides are one account makes no call but the two lookups.
  pub transfer_to_self :
      (body : TransferRequest) (sender recipient : Party) (w w' w'' : W)
      → s.resolve body.sender_card_number w ≡ (answered sender, w')
      → s.resolve body.recipient_account w' ≡ (answered recipient, w'')
      → sender.account_id ≡ recipient.account_id
      → IsPrefix (map stage (transfer s body (fresh w)).1.calls) to_resolution
  unfolding transfer
  transfer_to_self body sender recipient w w' w'' from to same =
      ground (arith, eq_iff sender.account_id recipient.account_id)

  risk_stops :
      (body : PurchaseRequest)
      → ((v : W) → NotApproved (s.evaluate body.card_number body.amount_cents body.entry_mode v).0)
      → (x y : Party) (a b c : String) (p q : Party) (balance : CallResult ℤ) (w : W)
      → IsPrefix
          (map stage (purchase_at_risk s body x y (checked a b c p q balance w)).1.calls)
          to_risk
  unfolding purchase_at_risk
  risk_stops body no_approval x y a b c p q balance w = ground (arith, no_approval w)

  -- A purchase that the risk service does not approve, by a refusal, a rejection or silence, never
  -- reaches the switch.
  pub purchase_unapproved :
      (body : PurchaseRequest) (w : W)
      → ((v : W) → NotApproved (s.evaluate body.card_number body.amount_cents body.entry_mode v).0)
      → IsPrefix (map stage (purchase s body (fresh w)).1.calls) to_risk
  unfolding purchase
  purchase_unapproved body w no_approval = grind (arith, risk_stops body no_approval)

  covered_low : (amount : ℤ) (r : CallResult ℤ) → TooLow amount r → covered s amount r ≡ false
  unfolding covered
  covered_low amount (answered balance_cents) low = ground arith
  covered_low amount (rejected status detail) low = absurd low
  covered_low amount (unreachable why) low = absurd low

  -- A purchase that the wallet is known not to cover is declined, or refused earlier, and neither
  -- the risk service nor the switch hears of it.
  pub purchase_unaffordable :
      (body : PurchaseRequest) (w : W)
      → ((account_id : String) (v : W) → TooLow body.amount_cents (s.balance account_id v).0)
      → IsPrefix (map stage (purchase s body (fresh w)).1.calls) to_balance
  unfolding purchase
  purchase_unaffordable body w poor = grind (
    arith,
    λ (account_id : String) (v : W).
        covered_low body.amount_cents (s.balance account_id v).0 (poor account_id v),
  )
