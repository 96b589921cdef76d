-- ===== src/Ace/Sendable.antt =====
-- What is asked of the texts that go through the gateway: requests, and the answers to them.
use microfinance_microservic.Common.{
  ◌≢◌, refl, ap, String, Option, none, some, List, [], ◌∷◌, HasEq-text, arith,
}
use microfinance_microservic.Common.Text.{append, AllChars, AllChars-append}
use microfinance_microservic.Soap.Tree.{
  IsPlain, IsPrintable, IsVerbatim, strip, lstrip, PlainOption,
}
use microfinance_microservic.Soap.Client.{SoapResult, answer, fault, unreachable}
use microfinance_microservic.Soap.Fields.{present, Distinct, distinct-Distinct, PlainFields}
use microfinance_microservic.Soap.Roundtrip.{IsTrim, rstrip-append}
use microfinance_microservic.Switch.Client.{Fields}
use microfinance_microservic.Adapter.{SoapAuthorize}
use microfinance_microservic.Ace.Mediation.{iso_to_soap_authorize}
use microfinance_microservic.Ace.Endpoint.{
  Sent, answered, timed_out, connection_error, failed, timeout_text, server_fault,
}
use microfinance_microservic.Ace.Mapping.{
  authorize_fields, authorize_elements, IsBlock, hex_of, ksn_of,
}
use microfinance_microservic.Ace.Chain.{amount_to_de4}
use microfinance_microservic.Ace.Amounts.{amount_to_de4-IsPlain}

-- A request that the schema of the adapter lets through, in printable characters: what the mediation
-- requires is there, and the PIN block is eight bytes.
pub record IsSendable (r : SoapAuthorize) (block : Fields) : Type 0 where
  pub given_pan : r.pan ≢ ""
  pub given_code : r.processing_code ≢ ""
  pub given_rrn : r.rrn ≢ ""
  pub plain_pan : IsPlain r.pan
  pub plain_code : IsPlain r.processing_code
  pub plain_mode : IsPlain r.entry_mode
  pub plain_rrn : IsPlain r.rrn
  pub plain_currency : IsPlain r.currency_code
  pub plain_hex : PlainOption (hex_of r.pin_block)
  pub plain_ksn : PlainOption (ksn_of r.pin_block)
  pub plain_account : PlainOption r.account_id_2
  pub is_block : IsBlock r.pin_block block

abbrev pub fields_of : SoapAuthorize → List (String × Option String)
fields_of r =
    authorize_fields r.pan r.processing_code (amount_to_de4 r.amount_minor) r.entry_mode r.rrn
      r.currency_code r.pin_block r.account_id_2

-- The data elements that the switch is sent
abbrev pub elements_of : SoapAuthorize → Fields → Fields
elements_of r block =
    authorize_elements r.pan r.processing_code (amount_to_de4 r.amount_minor) r.entry_mode r.rrn
      r.currency_code block (ksn_of r.pin_block) r.account_id_2

-- What the client of the gateway is told, by what came of the message
abbrev pub told : String → String → Sent → SoapResult
told seconds rrn (answered parsed) = answer (present (iso_to_soap_authorize parsed rrn))
told seconds rrn timed_out =
    fault (server_fault (timeout_text seconds) (some "<detail>category=SWITCH_TIMEOUT</detail>"))
told seconds rrn (connection_error why) = fault (
    server_fault (append "No connection to the switch: " why)
      (some "<detail>category=SWITCH_DOWN</detail>"))
told seconds rrn failed = unreachable ""

-- What comes back is printable, and no exception that nothing catches.
abbrev pub IsTold : String → Sent → Type 0
IsTold rrn (answered parsed) = PlainFields (iso_to_soap_authorize parsed rrn)
IsTold rrn timed_out = Unit
IsTold rrn (connection_error why) =
    IsPlain why × IsTrim (append "No connection to the switch: " why)
IsTold rrn failed = ⊥

pub authorize_fields-Distinct :
    (pan processing_code amount_minor entry_mode rrn currency_code : String)
    (block : Option (String × String)) (account_id_2 : Option String)
    → Distinct (
        present (
          authorize_fields pan processing_code amount_minor entry_mode rrn currency_code block
            account_id_2))
authorize_fields-Distinct pan processing_code amount_minor entry_mode rrn currency_code none none =
    distinct-Distinct
      (present
        (authorize_fields pan processing_code amount_minor entry_mode rrn currency_code none none))
      refl
authorize_fields-Distinct pan processing_code amount_minor entry_mode rrn currency_code none
      (some account) =
    distinct-Distinct
      (present (
        authorize_fields pan processing_code amount_minor entry_mode rrn currency_code none
          (some account)))
      refl
authorize_fields-Distinct pan processing_code amount_minor entry_mode rrn currency_code
      (some (ksn, hex)) none =
    distinct-Distinct
      (present (
        authorize_fields pan processing_code amount_minor entry_mode rrn currency_code
          (some (ksn, hex)) none))
      refl
authorize_fields-Distinct pan processing_code amount_minor entry_mode rrn currency_code
      (some (ksn, hex)) (some account) =
    distinct-Distinct
      (present (
        authorize_fields pan processing_code amount_minor entry_mode rrn currency_code
          (some (ksn, hex)) (some account)))
      refl

pub plain_fields :
    (r : SoapAuthorize) (block : Fields) → IsSendable r block → PlainFields (fields_of r)
plain_fields r block h = (
  h.plain_pan,
  (
    h.plain_code,
    (
      amount_to_de4-IsPlain r.amount_minor,
      (
        h.plain_mode,
        (
          h.plain_rrn,
          (h.plain_currency, (h.plain_hex, (h.plain_ksn, (tt, (h.plain_account, tt))))),
        ),
      ),
    ),
  ),
)

pub timeout_text-IsPlain : (seconds : String) → IsPlain seconds → IsPlain (timeout_text seconds)
timeout_text-IsPlain seconds h =
    AllChars-append IsPrintable "Switch did not respond within "
      (append seconds "s, outcome UNKNOWN, reversal sent") (omega arith)
      (AllChars-append IsPrintable seconds "s, outcome UNKNOWN, reversal sent" h (omega arith))

pub timeout_text-IsTrim : (seconds : String) → IsTrim (timeout_text seconds)
unfolding strip
timeout_text-IsTrim seconds = (
  ap lstrip (
      rstrip-append (append "Switch did not respond within " seconds)
        "s, outcome UNKNOWN, reversal sent" refl (λ e. cc)),
  λ e. cc,
)

abbrev pub answer_fields :
    String → String → Option String → String → String → String → List (String × Option String)
answer_fields code meaning auth_id stan rrn mti =
    ("responseCode", some code)
    ∷ ("responseText", some meaning)
    ∷ ("authId", auth_id)
    ∷ ("stan", some stan)
    ∷ ("rrn", some rrn)
    ∷ ("mti", some mti)
    ∷ []

pub answer_fields-Distinct :
    (code meaning : String) (auth_id : Option String) (stan rrn mti : String)
    → Distinct (present (answer_fields code meaning auth_id stan rrn mti))
answer_fields-Distinct code meaning none stan rrn mti =
    distinct-Distinct (present (answer_fields code meaning none stan rrn mti)) refl
answer_fields-Distinct code meaning (some id) stan rrn mti =
    distinct-Distinct (present (answer_fields code meaning (some id) stan rrn mti)) refl

pub server-IsTrim : IsTrim "soapenv:Server"
unfolding strip
server-IsTrim = (refl, λ e. cc)

pub timeout-IsVerbatim : AllChars IsVerbatim "category=SWITCH_TIMEOUT"
timeout-IsVerbatim = ground arith

pub down-IsVerbatim : AllChars IsVerbatim "category=SWITCH_DOWN"
down-IsVerbatim = ground arith
