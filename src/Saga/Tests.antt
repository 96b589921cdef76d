-- ===== src/Saga/Tests.antt =====
-- The saga against services that are a fixed table, and the theorems at those services.
use microfinance_microservic.Common.{
  ℕ, ◌≡◌, refl, ◌+◌, some, String, [], ◌∷◌, map, All, arith, eq_iff, HasEq-text, ◌==◌,
  if◌then◌else◌,
}
use microfinance_microservic.Common.Int.{ℤ, pos}
use microfinance_microservic.Saga.{
  purchase, transfer, topup, purchase_at_risk, purchase_at_switch, top_up_attempts,
}
use microfinance_microservic.Saga.Interface.{
  PurchaseRequest, TransferRequest, TopupRequest, Services, Party, CallResult, answered, rejected,
  unreachable, Reject, RiskOutcome, AuthOutcome, PostStatus,
}
use microfinance_microservic.Saga.Order.{
  resolving, checking, scoring, authorizing, posting, crediting, stage, script, fresh, IsPrefix,
  purchase-order, transfer-order,
}
use microfinance_microservic.Saga.Answers.{Told, purchase-Told, transfer-Told, to_risk}
use microfinance_microservic.Saga.Guards.{
  purchase_unowned, transfer_to_self, purchase_unapproved, purchase_unaffordable, to_resolution,
  to_balance,
}
use microfinance_microservic.Saga.Payload.{
  Carries, purchase-Carries, SameReference, purchase-SameReference,
}
use microfinance_microservic.Saga.Topup.{Credited, topup-Credited, topup_once}

abbrev owner_of_card : String → Party
owner_of_card card = record {
  account_id = if card == "merchant:demo" then "acc_m" else "acc_a";
  user_id = some "u1";
}

-- The world counts the calls. The wallet holds `funds`, the risk service answers `risk`, and the
-- ledger `post` and `top_up`.
abbrev table : ℤ → RiskOutcome → CallResult PostStatus → Services ℕ
table funds risk ledger = record {
  resolve = λ card w. (answered (owner_of_card card), w + 1);
  balance = λ account_id w. (answered funds, w + 1);
  evaluate =
      λ card amount mode w. (answered (record { outcome = risk; reasons = "a" ∷ "b" ∷ [] }), w + 1);
  authorize = λ r w. (
    answered (record {
      outcome = AuthOutcome.approved;
      response_text = some "Approved";
      authorization_id = some "A18008";
      stan = some "000007";
      rrn = some r.rrn;
    }),
    w + 1,
  );
  post = λ p w. (ledger, w + 1);
  reverse = λ r w. (answered tt, w + 1);
  top_up = λ rrn account_id amount w. (ledger, w + 1);
  new_rrn = λ w. ("112233445566", w);
}

abbrev paid : Services ℕ
paid = table (pos 500) RiskOutcome.approve (answered PostStatus.recorded)

abbrev lost : Services ℕ
lost = table (pos 500) RiskOutcome.approve (unreachable "down")

abbrev body : PurchaseRequest
body = record {
  user_id = "u1";
  card_number = "4000000000000001";
  pin = "1234";
  amount_cents = pos 80;
  entry_mode = "05";
}

abbrev to_friend : TransferRequest
to_friend = record {
  user_id = "u1";
  sender_card_number = "4000000000000001";
  sender_pin = "1234";
  recipient_account = "merchant:demo";
  amount_cents = pos 80;
}

abbrev cash_in : TopupRequest
cash_in = record { user_id = "u1"; card_number = "4000000000000001"; amount_cents = pos 80 }

paid_calls :
    map stage (purchase paid body (fresh 0)).1.calls
    ≡ resolving ∷ resolving ∷ checking ∷ scoring ∷ authorizing ∷ posting ∷ []
unfolding purchase purchase_at_risk purchase_at_switch
paid_calls = refl

lost_calls : map stage (purchase lost body (fresh 0)).1.calls ≡ script
unfolding purchase purchase_at_risk purchase_at_switch
lost_calls = refl

purchase-order_example : IsPrefix (map stage (purchase lost body (fresh 0)).1.calls) script
purchase-order_example = purchase-order lost body 0

transfer-order_run : IsPrefix (map stage (transfer paid to_friend (fresh 0)).1.calls) script
transfer-order_run = transfer-order paid to_friend 0

purchase-Told_example : Told body.amount_cents (purchase lost body (fresh 0))
purchase-Told_example = purchase-Told lost body 0

transfer-Told_example : Told to_friend.amount_cents (transfer paid to_friend (fresh 0))
transfer-Told_example = transfer-Told paid to_friend 0

purchase_unowned_run :
    IsPrefix
      (map stage (purchase paid (record body { user_id = "u2" }) (fresh 0)).1.calls)
      to_resolution
purchase_unowned_run =
    purchase_unowned paid (record body { user_id = "u2" }) (owner_of_card "4000000000000001") 0 1
      refl (ground (arith, eq_iff "u1" "u2"))

transfer_to_self_run :
    IsPrefix
      (map stage
        (transfer paid (record to_friend { recipient_account = "acc_a" }) (fresh 0)).1.calls)
      to_resolution
transfer_to_self_run =
    transfer_to_self paid (record to_friend { recipient_account = "acc_a" })
      (owner_of_card "4000000000000001") (owner_of_card "acc_a") 0 1 2 refl refl refl

abbrev wary : Services ℕ
wary = table (pos 500) RiskOutcome.review (answered PostStatus.recorded)

purchase_unapproved_run : IsPrefix (map stage (purchase wary body (fresh 0)).1.calls) to_risk
purchase_unapproved_run = purchase_unapproved wary body 0 (λ v e. cc)

abbrev poor : Services ℕ
poor = table (pos 79) RiskOutcome.approve (answered PostStatus.recorded)

purchase_unaffordable_run : IsPrefix (map stage (purchase poor body (fresh 0)).1.calls) to_balance
purchase_unaffordable_run = purchase_unaffordable poor body 0 (λ account_id v. omega arith)

purchase-Carries_example : All (Carries body) (purchase lost body (fresh 0)).1.calls
purchase-Carries_example = purchase-Carries lost body 0

purchase-SameReference_run : SameReference (purchase lost body (fresh 0)).1.calls
purchase-SameReference_run = purchase-SameReference lost body 0

abbrev colliding : Services ℕ
colliding = table (pos 0) RiskOutcome.approve (rejected 409 (Reject.coded (some "rrn_collision")))

collisions :
    map stage (topup colliding cash_in (fresh 0)).1.calls
    ≡ resolving ∷ crediting ∷ crediting ∷ crediting ∷ []
unfolding topup top_up_attempts
collisions = refl

topup-Credited_example : Credited (topup colliding cash_in (fresh 0))
topup-Credited_example = topup-Credited colliding cash_in 0

topup_once_run :
    IsPrefix (map stage (topup paid cash_in (fresh 0)).1.calls) (resolving ∷ crediting ∷ [])
topup_once_run = topup_once paid cash_in 0 (λ rrn account_id v. tt)
