-- ===== src/Saga.antt =====
-- services/transaction-service/app/main.py: the saga that a payment is. The other services, the
-- clock and the random digits of a reference are a record of functions on a world `W`; every call
-- that the saga makes is kept in a log, oldest first. Retries are inside a call
-- (libs/mfcommon/mfcommon/http/client.py), so one call of the log is one `get` or `post`.
-- The outcomes that the services send as texts are enumerations.
pub mod Interface
pub mod Steps
pub mod Order
pub mod Verdict
pub mod Answers
pub mod Guards
pub mod Payload
pub mod Topup
mod Tests
use microfinance_microservic.Common.{
  ℕ, zero, suc, String, Bool, true, false, not, ◌&&◌, ◌||◌, Option, none, some, List, [], ◌∷◌, ◌++◌,
  HasEq-text, HasEq-nat, ◌==◌, option_eq, if◌then◌else◌, leb,
}
use microfinance_microservic.Common.Int.{ℤ, pos, ltb_ℤ, leb_ℤ}
use microfinance_microservic.Common.Text.{append, len}
use microfinance_microservic.Saga.Interface.{
  Reject, CallResult, answered, rejected, unreachable, Party, RiskOutcome, Decision, AuthOutcome,
  Authorization, PostStatus, LedgerStatus, posted, reversed, reconciliation_required, Status,
  Response, PurchaseRequest, TopupRequest, TransferRequest, AuthRequest, LedgerPosting,
  ReverseRequest, Call, of_top_up, Cause, message, relayed, unavailable, Result, ok, raised,
  Services, Trace, merchant_identifier, is_rrn_collision, or_text, or_else,
}
use Steps.{
  M, ◌>>=◌, pure, raise, calling, valid_purchase, valid_topup, valid_transfer, join_reasons,
  respond, early, insufficient, resolve_or_404, can_afford, evaluate_risk, generate_rrn, authorize,
  post_to_ledger,
}

module _ {W : Type 0} (s : Services W) where
  -- The switch approved: `purchase` and `transfer` from there on
  finish : Authorization → String → LedgerPosting → String → M W Response
  unfolding post_to_ledger respond
  finish auth rrn p card_number = do
    status ← post_to_ledger s p card_number auth.stan
    pure (respond auth rrn status)

  -- What a purchase makes of the switch's answer
  purchase_answer : PurchaseRequest → Party → Party → String → Authorization → M W Response
  unfolding finish
  purchase_answer body sender merchant rrn auth = elim auth.outcome [
    | AuthOutcome.unknown ↦ pure (
        early Status.unknown
          (some (or_text auth.response_text "Switch outcome could not be determined.")) (some rrn)
          none true)
    | AuthOutcome.declined ↦ pure (
        early Status.declined (some (or_text auth.response_text "Declined by the issuer."))
          (some (or_else auth.rrn rrn)) auth.stan false)
    | AuthOutcome.approved ↦
        finish auth (or_text auth.rrn rrn)
          (record {
            rrn = or_text auth.rrn rrn;
            debit_account = sender.account_id;
            credit_account = merchant.account_id;
            amount_cents = body.amount_cents;
            kind = "purchase";
          })
          body.card_number
  ]

  -- From the point of no return
  unfoldable pub purchase_at_switch : PurchaseRequest → Party → Party → M W Response
  unfolding generate_rrn authorize purchase_answer
  purchase_at_switch body sender merchant = do
    rrn ← generate_rrn s
    auth ← authorize s (record {
      rrn = rrn;
      card_number = body.card_number;
      pin = body.pin;
      amount_cents = body.amount_cents;
      entry_mode = body.entry_mode;
      processing_code = "000000";
      credit_account = none;
    })
    purchase_answer body sender merchant rrn auth

  refused : Status → Decision → M W Response
  unfolding join_reasons
  refused status decision =
      pure (early status (some (join_reasons decision.reasons)) none none false)

  -- The risk decision, for a payment that the wallet covers
  unfoldable pub purchase_at_risk : PurchaseRequest → Party → Party → M W Response
  unfolding evaluate_risk refused
  purchase_at_risk body sender merchant = do
    decision ← evaluate_risk s body.card_number body.amount_cents body.entry_mode
    elim decision.outcome [
      | RiskOutcome.decline ↦ refused Status.declined decision
      | RiskOutcome.review ↦ refused Status.review decision
      | RiskOutcome.approve ↦ purchase_at_switch body sender merchant
    ]

  -- The saga of `purchase`, on a body that has been validated
  purchase_saga : PurchaseRequest → M W Response
  unfolding resolve_or_404 can_afford
  purchase_saga body = do
    sender ← resolve_or_404 s body.card_number "Sender card is not registered."
    merchant ← resolve_or_404 s merchant_identifier "Merchant 'merchant:demo' is not registered."
    if option_eq sender.user_id (some body.user_id)
        then (do
          affordable ← can_afford s sender.account_id body.amount_cents
          if affordable then purchase_at_risk body sender merchant else pure insufficient)
        else raise 403 (message "You are not authorized to use this card.")

  unprocessable : M W Response
  unprocessable = raise 422 (message "validation error")

  -- `purchase`
  unfoldable pub purchase : PurchaseRequest → M W Response
  unfolding valid_purchase unprocessable purchase_saga
  purchase body = if valid_purchase body then purchase_saga body else unprocessable

  transfer_answer : TransferRequest → Party → Party → String → Authorization → M W Response
  unfolding finish
  transfer_answer body sender recipient rrn auth = elim auth.outcome [
    | AuthOutcome.unknown ↦ pure (
        early Status.unknown
          (some (or_text auth.response_text "Switch outcome could not be determined.")) (some rrn)
          none true)
    | AuthOutcome.declined ↦
        pure (early Status.declined auth.response_text (some rrn) auth.stan false)
    | AuthOutcome.approved ↦
        finish auth (or_text auth.rrn rrn)
          (record {
            rrn = or_text auth.rrn rrn;
            debit_account = sender.account_id;
            credit_account = recipient.account_id;
            amount_cents = body.amount_cents;
            kind = "transfer";
          })
          body.sender_card_number
  ]

  unfoldable pub transfer_at_switch : TransferRequest → Party → Party → M W Response
  unfolding generate_rrn authorize transfer_answer
  transfer_at_switch body sender recipient = do
    rrn ← generate_rrn s
    auth ← authorize s (record {
      rrn = rrn;
      card_number = body.sender_card_number;
      pin = body.sender_pin;
      amount_cents = body.amount_cents;
      entry_mode = "01";
      processing_code = "400000";
      credit_account = some recipient.account_id;
    })
    transfer_answer body sender recipient rrn auth

  unfoldable pub transfer_at_risk : TransferRequest → Party → Party → M W Response
  unfolding evaluate_risk refused
  transfer_at_risk body sender recipient = do
    decision ← evaluate_risk s body.sender_card_number body.amount_cents "01"
    elim decision.outcome [
      | RiskOutcome.decline ↦ refused Status.declined decision
      | RiskOutcome.review ↦ refused Status.review decision
      | RiskOutcome.approve ↦ transfer_at_switch body sender recipient
    ]

  transfer_saga : TransferRequest → M W Response
  unfolding resolve_or_404 can_afford
  transfer_saga body = do
    sender ← resolve_or_404 s body.sender_card_number "Sender card is not registered."
    recipient ← resolve_or_404 s body.recipient_account "Recipient is not registered."
    if option_eq sender.user_id (some body.user_id)
        then (if sender.account_id == recipient.account_id
            then raise 400 (message "Sender and recipient are the same account.")
            else (do
              affordable ← can_afford s sender.account_id body.amount_cents
              if affordable then transfer_at_risk body sender recipient else pure insufficient))
        else raise 403 (message "You are not authorized to use this card.")

  -- `transfer`
  unfoldable pub transfer : TransferRequest → M W Response
  unfolding valid_transfer unprocessable transfer_saga
  transfer body = if valid_transfer body then transfer_saga body else unprocessable

  topped_up : String → PostStatus → Response
  topped_up rrn status = record {
    status = Status.approved;
    reason = some "Wallet topped up";
    rrn = some rrn;
    stan = none;
    authorization_id = none;
    ledger_status = some (posted status);
    requires_reconciliation = false;
  }

  top_up_answer : M W Response → ℕ → String → CallResult PostStatus → M W Response
  unfolding topped_up is_rrn_collision
  top_up_answer again left rrn (answered status) = pure (topped_up rrn status)
  top_up_answer again left rrn (rejected status detail) =
      if is_rrn_collision detail && leb 1 left then again else raise status (relayed detail)
  top_up_answer again left rrn (unreachable why) = raise 503 (unavailable why)

  -- `for attempt in range(3)`, by the attempts that are left
  unfoldable pub top_up_attempts : ℕ → String → ℤ → M W Response
  unfolding generate_rrn top_up_answer
  top_up_attempts zero account_id amount_cents =
      raise 503 (message "Could not allocate a unique reference")
  top_up_attempts (suc left) account_id amount_cents =
      let again = top_up_attempts left account_id amount_cents in
      do
        rrn ← generate_rrn s
        r ←
            calling (Call.top_up rrn account_id amount_cents) of_top_up
              (s.top_up rrn account_id amount_cents)
        top_up_answer again left rrn r

  topup_saga : TopupRequest → M W Response
  unfolding resolve_or_404
  topup_saga body = do
    sender ← resolve_or_404 s body.card_number "Card is not registered."
    if option_eq sender.user_id (some body.user_id)
        then top_up_attempts 3 sender.account_id body.amount_cents
        else raise 403 (message "You are not authorized to use this card.")

  -- `topup`
  unfoldable pub topup : TopupRequest → M W Response
  unfolding valid_topup unprocessable topup_saga
  topup body = if valid_topup body then topup_saga body else unprocessable
