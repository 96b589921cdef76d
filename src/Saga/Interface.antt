-- ===== src/Saga/Interface.antt =====
-- services/transaction-service/app/main.py: what the saga sends and receives. A call answers, is
-- rejected with a 4xx, or cannot be reached (`ServiceCallError`, which a 5xx is too), as
-- libs/mfcommon/mfcommon/http/client.py has it.
use microfinance_microservic.Common.{
  ℕ, String, Bool, true, false, Option, none, some, List, HasEq-text, ◌==◌, if◌then◌else◌,
}
use microfinance_microservic.Common.Int.{ℤ}
use text.Mathlib.Text.{find?}

-- The `detail` of a 4xx: a dictionary with an "error", or anything else as a text.
pub data Reject : Type 0 where
  coded : Option String → Reject
  plain : String → Reject

pub data CallResult (A : Type 0) : Type 0 where
  answered : A → CallResult A
  rejected : ℕ → Reject → CallResult A
  unreachable : String → CallResult A

-- The answer of `resolve`
pub record Party : Type 0 where
  pub account_id : String
  pub user_id : Option String

pub data RiskOutcome : Type 0 where
  approve review decline : RiskOutcome

pub record Decision : Type 0 where
  pub outcome : RiskOutcome
  pub reasons : List String

pub data AuthOutcome : Type 0 where
  approved declined unknown : AuthOutcome

-- `AuthorizeResponse` of services/iso8583-adapter/app/main.py, as the saga reads it. Its reference is a
-- text in the adapter's schema, so none stands for a key that is missing, never for a null.
pub record Authorization : Type 0 where
  pub outcome : AuthOutcome
  pub response_text : Option String
  pub authorization_id : Option String
  pub stan : Option String
  pub rrn : Option String

pub data PostStatus : Type 0 where
  recorded already_recorded : PostStatus

-- The `status` that `_post_to_ledger` returns
pub data LedgerStatus : Type 0 where
  posted : PostStatus → LedgerStatus
  reversed reconciliation_required : LedgerStatus

pub data Status : Type 0 where
  approved declined review reversed unknown : Status

-- `TransactionResponse`
pub record Response : Type 0 where
  pub status : Status
  pub reason : Option String
  pub rrn : Option String
  pub stan : Option String
  pub authorization_id : Option String
  pub ledger_status : Option LedgerStatus
  pub requires_reconciliation : Bool

pub record PurchaseRequest : Type 0 where
  pub user_id : String
  pub card_number : String
  pub pin : String
  pub amount_cents : ℤ
  pub entry_mode : String

pub record TopupRequest : Type 0 where
  pub user_id : String
  pub card_number : String
  pub amount_cents : ℤ

pub record TransferRequest : Type 0 where
  pub user_id : String
  pub sender_card_number : String
  pub sender_pin : String
  pub recipient_account : String
  pub amount_cents : ℤ

-- The payload of `_authorize`
pub record AuthRequest : Type 0 where
  pub rrn : String
  pub card_number : String
  pub pin : String
  pub amount_cents : ℤ
  pub entry_mode : String
  pub processing_code : String
  pub credit_account : Option String

-- The payload of `_post_to_ledger`
pub record LedgerPosting : Type 0 where
  pub rrn : String
  pub debit_account : String
  pub credit_account : String
  pub amount_cents : ℤ
  pub kind : String

-- The payload of `_compensate_with_reversal`
pub record ReverseRequest : Type 0 where
  pub rrn : String
  pub original_stan : String
  pub original_mti : String
  pub amount_cents : ℤ
  pub card_number : String

pub data Call : Type 0 where
  resolve : String → Call
  balance : String → Call
  evaluate : String → ℤ → String → Call
  authorize : AuthRequest → Call
  post : LedgerPosting → Call
  reverse : ReverseRequest → Call
  top_up : String → String → ℤ → Call

-- What a call was answered with, by the service
pub data Answer : Type 0 where
  of_resolve : CallResult Party → Answer
  of_balance : CallResult ℤ → Answer
  of_evaluate : CallResult Decision → Answer
  of_authorize : CallResult Authorization → Answer
  of_post : CallResult PostStatus → Answer
  of_reverse : CallResult (Unit {0}) → Answer
  of_top_up : CallResult PostStatus → Answer

-- The `detail` of an HTTPException
pub data Cause : Type 0 where
  message : String → Cause
  relayed : Reject → Cause
  unavailable : String → Cause

pub data Result (A : Type 0) : Type 0 where
  ok : A → Result A
  raised : ℕ → Cause → Result A

-- The services that the saga calls, and the generator of references, on a world of any kind.
pub record Services (W : Type 0) : Type 0 where
  pub resolve : String → W → CallResult Party × W
  pub balance : String → W → CallResult ℤ × W
  pub evaluate : String → ℤ → String → W → CallResult Decision × W
  pub authorize : AuthRequest → W → CallResult Authorization × W
  pub post : LedgerPosting → W → CallResult PostStatus × W
  pub reverse : ReverseRequest → W → CallResult (Unit {0}) × W
  pub top_up : String → String → ℤ → W → CallResult PostStatus × W
  pub new_rrn : W → String × W

pub record Trace (W : Type 0) : Type 0 where
  pub world : W
  pub calls : List Call
  pub answers : List Answer

-- MERCHANT_IDENTIFIER, by default
abbrev pub merchant_identifier : String
merchant_identifier = "merchant:demo"

-- `_is_rrn_collision`
unfoldable pub is_rrn_collision : Reject → Bool
is_rrn_collision (Reject.coded none) = false
is_rrn_collision (Reject.coded (some error)) = error == "rrn_collision"
is_rrn_collision (Reject.plain s) = elim (find? s "rrn_collision") [ none ↦ false | some i ↦ true ]

-- `a or b` for a text that may be missing
abbrev pub or_text : Option String → String → String
or_text none b = b
or_text (some a) b = if a == "" then b else a

-- `d.get(k, b)`
abbrev pub or_else : Option String → String → String
or_else none b = b
or_else (some a) b = a
