-- ===== src/Ace/Endpoint.antt =====
-- services/ace-stub/app/main.py: `soap_endpoint`. The correlation layer is a function on a world `W`;
-- the texts of SWITCH_TIMEOUT and of the exceptions of libraries, and what an exception that nothing
-- catches is answered with, are parameters.
use microfinance_microservic.Common.{
  ℕ, String, Option, none, some, List, [], ◌==◌, HasEq-text, if◌then◌else◌,
}
use microfinance_microservic.Common.Text.{append, codes, string_of}
use microfinance_microservic.Iso8583.Bcd.{Text}
use microfinance_microservic.Iso8583.Message.{Message}
use microfinance_microservic.Soap.Tree.{Xml, or_empty}
use microfinance_microservic.Soap.Envelope.{
  Dict, get, iso8583_ns, SoapFault, Parsed, body, faulted, protocol_error, ProtocolError,
  not_well_formed, not_an_envelope, no_body, empty_body, Request, build_fault, build_response,
  parse_request,
}
use microfinance_microservic.Switch.Client.{Fields}
use microfinance_microservic.Ace.Codes.{repr}
use microfinance_microservic.Ace.Mediation.{
  Mediated, mapped, refused, soap_to_iso_authorize, soap_to_iso_reverse, soap_to_iso_network,
  iso_to_soap_authorize, iso_to_soap_reverse, iso_to_soap_network,
}

-- What `send_and_wait` returns, or raises: a `TransactionTimeout`, a `ConnectionError` with its text, or
-- another exception
pub data Sent : Type 0 where
  answered : Message → Sent
  timed_out : Sent
  connection_error : String → Sent
  failed : Sent

pub record Texts (Wire : Type 0) : Type 0 where
  pub switch_timeout : String
  pub hex_error : String → String
  pub server_error : Wire

-- The three operations, and what else is asked for
pub data Operation : Type 0 where
  authorizing reversing managing : Operation
  unknown : String → Operation

unfoldable pub operation_of : String → Operation
operation_of name =
    if name == "authorizeRequest"
    then authorizing
    else if name == "reverseRequest"
    then reversing
    else if name == "networkManagementRequest"
    then managing
    else unknown name

-- Code, text and detail of a fault, and its status
abbrev pub client_fault : String → Option String → SoapFault
client_fault s detail = record { code = "soapenv:Client"; string = s; detail = detail }

abbrev pub server_fault : String → Option String → SoapFault
server_fault s detail = record { code = "soapenv:Server"; string = s; detail = detail }

abbrev pub error_text : ProtocolError → String
error_text (not_well_formed why) = append "Request is not well-formed XML: " why
error_text (not_an_envelope tag) = ""
error_text no_body = "SOAP request has no Body content"
error_text empty_body = "SOAP request has no Body content"

abbrev pub timeout_text : String → String
timeout_text seconds =
    append "Switch did not respond within " (append seconds "s, outcome UNKNOWN, reversal sent")

abbrev pub response_tag : Operation → String
response_tag authorizing = "authorizeResponse"
response_tag reversing = "reverseResponse"
response_tag managing = "networkManagementResponse"
response_tag (unknown name) = ""

module _ {Wire W : Type 0} (xml : Xml Wire) (send_and_wait : Text → Fields → W → Sent × W)
    (texts : Texts Wire) where
  -- `_fault`, with its status
  abbrev pub fault : SoapFault → ℕ → ℕ × Wire
  fault f status = (status, build_fault xml f)

  -- The answer to a message of the switch, by the operation
  abbrev pub to_soap : Operation → Dict → Message → List (String × Option String)
  to_soap authorizing fields parsed = iso_to_soap_authorize parsed (or_empty (get "rrn" fields))
  to_soap reversing fields parsed = iso_to_soap_reverse parsed
  to_soap managing fields parsed = iso_to_soap_network parsed
  to_soap (unknown name) fields parsed = []

  abbrev pub to_iso : Operation → Dict → Mediated (Text × Fields)
  to_iso authorizing fields = soap_to_iso_authorize texts.hex_error fields
  to_iso reversing fields = soap_to_iso_reverse fields
  to_iso managing fields = soap_to_iso_network fields
  to_iso (unknown name) fields = refused (
      append "Unknown operation " (
        append (string_of (repr (codes name)))
          ". Supported: authorizeRequest, networkManagementRequest, reverseRequest"))

  unfoldable pub on_sent : Operation → Dict → Sent → ℕ × Wire
  unfolding iso_to_soap_authorize iso_to_soap_reverse iso_to_soap_network build_fault build_response
      get
  on_sent operation fields (answered parsed) = (
    200,
    build_response xml (response_tag operation) (to_soap operation fields parsed) iso8583_ns,
  )
  on_sent operation fields timed_out =
      fault (server_fault (timeout_text texts.switch_timeout) (some "category=SWITCH_TIMEOUT")) 504
  on_sent operation fields (connection_error why) =
      fault
        (server_fault (append "No connection to the switch: " why) (some "category=SWITCH_DOWN"))
        503
  on_sent operation fields failed = (500, texts.server_error)

  abbrev pub after_sending : Operation → Dict → Sent × W → (ℕ × Wire) × W
  after_sending operation fields (outcome, w) = (on_sent operation fields outcome, w)

  -- The detail that a refusal carries; of an operation that is not known there is none
  abbrev pub category : Operation → Option String
  category (unknown name) = none
  category _ = some "category=VALIDATION"

  abbrev pub on_mediated : Operation → Dict → Mediated (Text × Fields) → W → (ℕ × Wire) × W
  on_mediated operation fields (refused why) w =
      (fault (client_fault why (category operation)) 500, w)
  on_mediated operation fields (mapped (mti, de)) w =
      after_sending operation fields (send_and_wait mti de w)

  abbrev pub on_request : Parsed Request → W → (ℕ × Wire) × W
  on_request (body r) w =
      on_mediated (operation_of r.operation) r.fields (to_iso (operation_of r.operation) r.fields) w
  on_request (faulted f) w = ((500, texts.server_error), w)
  on_request (protocol_error why) w =
      (fault (client_fault (append "Malformed SOAP request: " (error_text why)) none) 500, w)

  -- `soap_endpoint`: the status and the body of its answer
  unfoldable pub soap_endpoint : Wire → W → (ℕ × Wire) × W
  unfolding parse_request operation_of soap_to_iso_authorize soap_to_iso_reverse soap_to_iso_network
      on_sent repr string_of
  soap_endpoint raw w = on_request (parse_request xml raw) w
