-- ===== src/Adapter.antt =====
-- services/iso8583-adapter/app/main.py: authorizations and reversals through the SOAP gateway. The
-- gateway's client and the HSM are functions on a world `W`, and each call of the gateway is logged.
-- The amount is kept as a number, where the source writes it as the twelve digits of DE 4.
pub mod Settled
mod Tests
use microfinance_microservic.Common.{
  ℕ, String, Bool, true, false, Option, none, some, List, [], ◌∷◌, ◌++◌, HasEq-text, ◌==◌,
  if◌then◌else◌,
}
use microfinance_microservic.Common.Int.{ℤ}
use microfinance_microservic.Common.Text.{append}
use microfinance_microservic.Saga.Interface.{AuthOutcome, or_text, or_else}
use microfinance_microservic.Soap.Envelope.{Dict, get, SoapFault}
use microfinance_microservic.Soap.Client.{
  SoapResult, answer, fault, timed_out, unreachable, garbled, fault_text, is_client_fault,
}
use text.Mathlib.Text.{find?}

pub record AuthorizeRequest : Type 0 where
  pub card_number : String
  pub pin : Option String
  pub amount_cents : ℤ
  pub processing_code : String
  pub entry_mode : String
  pub rrn : String
  pub currency_code : Option String
  pub credit_account : Option String

pub record AuthorizeResponse : Type 0 where
  pub outcome : AuthOutcome
  pub response_code : Option String
  pub response_text : Option String
  pub authorization_id : Option String
  pub stan : Option String
  pub rrn : String
  pub reversal_sent : Bool

-- What `soap.authorize` is sent; the PIN block has its key serial number
pub record SoapAuthorize : Type 0 where
  pub pan : String
  pub processing_code : String
  pub amount_minor : ℤ
  pub entry_mode : String
  pub rrn : String
  pub currency_code : String
  pub pin_block : Option (String × String)
  pub account_id_2 : Option String

-- What `soap.reverse` is sent
pub record SoapReverse : Type 0 where
  pub original_mti : String
  pub original_stan : String
  pub rrn : String
  pub amount_minor : ℤ
  pub pan : String

pub record ReverseRequest : Type 0 where
  pub rrn : String
  pub original_stan : String
  pub original_mti : String
  pub amount_cents : ℤ
  pub card_number : String

pub data SoapCall : Type 0 where
  authorizing : SoapAuthorize → SoapCall
  reversing : SoapReverse → SoapCall

-- A response, or an HTTPException
pub data Reply (A : Type 0) : Type 0 where
  returned : A → Reply A
  raised : ℕ → String → Reply A

pub record State (W : Type 0) : Type 0 where
  pub world : W
  pub calls : List SoapCall

pub record Gateway (W : Type 0) : Type 0 where
  pub authorize : SoapAuthorize → W → SoapResult × W
  pub reverse : SoapReverse → W → SoapResult × W
  -- None where the PIN or the card is not of digits that it takes: a ValueError
  pub encrypt_pin_block : String → String → W → Option (String × String) × W

-- `needle in text`
unfoldable pub contains : String → String → Bool
contains needle s = elim (find? s needle) [ none ↦ false | some i ↦ true ]

abbrev is_answer : SoapResult → Bool
is_answer (answer r) = true
is_answer _ = false

abbrev pub unknown : String → String → Bool → AuthorizeResponse
unknown response_text rrn reversal_sent = record {
  outcome = AuthOutcome.unknown;
  response_code = none;
  response_text = some response_text;
  authorization_id = none;
  stan = none;
  rrn = rrn;
  reversal_sent = reversal_sent;
}

abbrev pub decided : String → Dict → AuthorizeResponse
decided rrn result = record {
  outcome =
      if or_else (get "responseCode" result) "" == "00"
      then AuthOutcome.approved
      else AuthOutcome.declined;
  response_code = some (or_else (get "responseCode" result) "");
  response_text = get "responseText" result;
  authorization_id = get "authId" result;
  stan = get "stan" result;
  rrn = or_text (get "rrn" result) rrn;
  reversal_sent = false;
}

-- The faults of the gateway, by the detail
unfoldable pub on_fault : String → SoapFault → Reply AuthorizeResponse
unfolding contains is_client_fault
on_fault rrn f =
    if contains "SWITCH_TIMEOUT" (or_text f.detail "")
    then returned (unknown f.string rrn true)
    else if contains "SWITCH_DOWN" (or_text f.detail "")
    then raised 503 (append "Switch unavailable: " f.string)
    else if is_client_fault f
    then raised 422 (append "Gateway rejected the request: " f.string)
    else raised 502 (append "Gateway fault: " f.string)

-- What nothing catches
abbrev uncaught : {A : Type 0} → Reply A
uncaught = raised 500 "Internal Server Error"

module _ {W : Type 0} (g : Gateway W) (default_currency : String) where
  abbrev pub encrypted : Option (String × String) × W → Option (Option (String × String)) × W
  encrypted (none, w) = (none, w)
  encrypted (some block, w) = (some (some block), w)

  -- The PIN block, where there is a PIN, or none where the HSM raises
  unfoldable pub pin_block :
      AuthorizeRequest → Option String → W → Option (Option (String × String)) × W
  pin_block body none w = (some none, w)
  pin_block body (some pin) w = encrypted (g.encrypt_pin_block pin body.card_number w)

  -- `_attempt_reversal`
  unfoldable pub attempt_reversal : AuthorizeRequest → State W → Bool × State W
  attempt_reversal body st =
      let request : SoapReverse = record {
        original_mti = "0200";
        original_stan = "000000";
        rrn = body.rrn;
        amount_minor = body.amount_cents;
        pan = body.card_number;
      } in
      let (r, w) = g.reverse request st.world in
      (is_answer r, record { world = w; calls = st.calls ++ reversing request ∷ [] })

  unfoldable pub on_result :
      AuthorizeRequest → SoapResult → State W → Reply AuthorizeResponse × State W
  unfolding on_fault attempt_reversal get
  on_result body (answer r) st = (returned (decided body.rrn r), st)
  on_result body (fault f) st = (on_fault body.rrn f, st)
  on_result body (timed_out why) st =
      let (sent, st') = attempt_reversal body st in (returned (unknown why body.rrn sent), st')
  on_result body (unreachable why) st =
      (raised 503 (append "ISO 8583 gateway unreachable: " why), st)
  on_result body (garbled why) st = (uncaught, st)

  -- The arguments of `soap.authorize`
  abbrev pub soap_request : AuthorizeRequest → Option (String × String) → SoapAuthorize
  soap_request body block = record {
    pan = body.card_number;
    processing_code = body.processing_code;
    amount_minor = body.amount_cents;
    entry_mode = body.entry_mode;
    rrn = body.rrn;
    currency_code = or_text body.currency_code default_currency;
    pin_block = block;
    account_id_2 = body.credit_account;
  }

  -- The call of the gateway, once the PIN block is built
  unfoldable pub sent :
      AuthorizeRequest
      → List SoapCall
      → Option (Option (String × String)) × W
      → Reply AuthorizeResponse × State W
  unfolding on_result
  sent body calls (none, w) = (uncaught, record { world = w; calls = calls })
  sent body calls (some block, w) =
      let request = soap_request body block in
      let (r, w') = g.authorize request w in
      on_result body r (record { world = w'; calls = calls ++ authorizing request ∷ [] })

  -- `authorize`
  unfoldable pub authorize : AuthorizeRequest → State W → Reply AuthorizeResponse × State W
  unfolding pin_block sent
  authorize body st = sent body st.calls (pin_block body body.pin st.world)

  abbrev acknowledged : String → SoapResult → Reply (Option String × String)
  acknowledged rrn (answer r) = returned (get "responseCode" r, rrn)
  acknowledged rrn (fault f) = raised 502 (append "Reversal failed: " (fault_text f))
  acknowledged rrn (timed_out why) = raised 502 (append "Reversal failed: " why)
  acknowledged rrn (unreachable why) = raised 502 (append "Reversal failed: " why)
  acknowledged rrn (garbled why) = uncaught

  -- `reverse`
  unfoldable pub reverse : ReverseRequest → State W → Reply (Option String × String) × State W
  unfolding get
  reverse body st =
      let request : SoapReverse = record {
        original_mti = body.original_mti;
        original_stan = body.original_stan;
        rrn = body.rrn;
        amount_minor = body.amount_cents;
        pan = body.card_number;
      } in
      let (r, w) = g.reverse request st.world in
      (acknowledged body.rrn r, record { world = w; calls = st.calls ++ reversing request ∷ [] })
