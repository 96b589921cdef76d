-- ===== src/Saga/Order.antt =====
-- The order in which the saga calls the other services, whatever they answer.
use microfinance_microservic.Common.{◌≡◌, List, [], ◌∷◌, map, arith}
use microfinance_microservic.Saga.{
  purchase, purchase_at_risk, purchase_at_switch, transfer, transfer_at_risk, transfer_at_switch,
}
use microfinance_microservic.Saga.Interface.{
  Call, PurchaseRequest, TransferRequest, Services, Trace,
}

pub data Stage : Type 0 where
  resolving checking scoring authorizing posting reversing crediting : Stage

abbrev pub stage : Call → Stage
stage (Call.resolve identifier) = resolving
stage (Call.balance account_id) = checking
stage (Call.evaluate card_number amount_cents entry_mode) = scoring
stage (Call.authorize request) = authorizing
stage (Call.post p) = posting
stage (Call.reverse request) = reversing
stage (Call.top_up rrn account_id amount_cents) = crediting

-- The documented order: both sides, the balance, the risk, the switch, the books, the reversal.
abbrev pub script : List Stage
script = resolving ∷ resolving ∷ checking ∷ scoring ∷ authorizing ∷ posting ∷ reversing ∷ []

abbrev pub IsPrefix : List Stage → List Stage → Type 0
IsPrefix [] ys = Unit
IsPrefix (x ∷ xs) [] = ⊥
IsPrefix (x ∷ xs) (y ∷ ys) = (x ≡ y) × IsPrefix xs ys

abbrev pub fresh : {W : Type 0} → W → Trace W
fresh w = record { world = w; calls = []; answers = [] }

module _ {W : Type 0} (s : Services W) where
  -- Whatever the services answer, a purchase makes its calls in the documented order: none is
  -- skipped before a later one, and none is made twice.
  pub purchase-order :
      (body : PurchaseRequest) (w : W)
      → IsPrefix (map stage (purchase s body (fresh w)).1.calls) script
  unfolding purchase purchase_at_risk purchase_at_switch
  purchase-order body w = ground arith

  -- A transfer keeps to the same order.
  pub transfer-order :
      (body : TransferRequest) (w : W)
      → IsPrefix (map stage (transfer s body (fresh w)).1.calls) script
  unfolding transfer transfer_at_risk transfer_at_switch
  transfer-order body w = ground arith
