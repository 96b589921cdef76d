-- ===== src/Soap/Client.antt =====
-- libs/mfcommon/mfcommon/soap/client.py: `Iso8583SoapClient`. httpx is a function on a world `W`, with
-- the header SOAPAction and the body as its arguments; the endpoint, the other headers and the time
-- limit are its configuration. The errors that name the time limit or count bytes have their texts
-- as parameters.
use Prim.Native.Char.{code}
use microfinance_microservic.Common.{
  ℕ, ◌+◌, String, Bool, true, false, ◌&&◌, Option, some, List, [], ◌∷◌, leb, nat_eq, if◌then◌else◌,
}
use microfinance_microservic.Common.Text.{append}
use microfinance_microservic.Soap.Tree.{Xml}
use microfinance_microservic.Soap.Envelope.{
  Dict, SoapFault, Parsed, body, faulted, protocol_error, ProtocolError, build_envelope,
  parse_response,
}

-- The rest of a text behind its last colon, `code.split(":")[-1]`
abbrev pub behind_colon : String → String → String
behind_colon kept String.[] = kept
behind_colon kept (String.◌∷◌ c s) = behind_colon (if nat_eq (code c) b':' then s else kept) s

-- A letter is this lower-case one of ASCII, or its capital.
abbrev pub same_letter : ℕ → ℕ → Bool
same_letter n c = nat_eq (if leb 65 c && leb c 90 then c + 32 else c) n

-- `s.lower().startswith(prefix)`, of a prefix of letters of ASCII
abbrev pub starts_lower : String → String → Bool
starts_lower String.[] s = true
starts_lower (String.◌∷◌ d prefix) String.[] = false
starts_lower (String.◌∷◌ d prefix) (String.◌∷◌ c s) =
    same_letter (code d) (code c) && starts_lower prefix s

unfoldable pub is_client_fault : SoapFault → Bool
is_client_fault f = starts_lower "client" (behind_colon f.code f.code)

-- `str(fault)`
abbrev pub fault_text : SoapFault → String
fault_text f = append "SOAP Fault [" (append f.code (append "]: " f.string))

-- A dictionary, or a SoapFault, SoapTimeout, SoapTransportError or SoapProtocolError
pub data SoapResult : Type 0 where
  answer : Dict → SoapResult
  fault : SoapFault → SoapResult
  timed_out : String → SoapResult
  unreachable : String → SoapResult
  garbled : ProtocolError → SoapResult

-- A response with its status, a `TimeoutException` or a `RequestError`
pub data Posted (Wire : Type 0) : Type 0 where
  response : ℕ → Wire → Posted Wire
  timeout : Posted Wire
  request_error : String → Posted Wire

pub record SoapClient (Wire W : Type 0) : Type 0 where
  pub post : String → Wire → W → Posted Wire × W
  pub endpoint : String
  pub namespace : String
  pub username : Option String
  pub password : Option String
  pub timeout_text : String → String
  pub non_soap_text : ℕ → Wire → String

module _ {Wire W : Type 0} (xml : Xml Wire) (client : SoapClient Wire W) (id : Option String) where
  abbrev pub on_parsed : ℕ → Wire → Parsed Dict → SoapResult
  on_parsed status content (body result) = answer result
  on_parsed status content (faulted f) = fault f
  on_parsed status content (protocol_error why) =
      if leb 500 status then unreachable (client.non_soap_text status content) else garbled why

  abbrev pub on_posted : String → Posted Wire → SoapResult
  on_posted operation (response status content) =
      on_parsed status content (parse_response xml content)
  on_posted operation timeout = timed_out (client.timeout_text operation)
  on_posted operation (request_error why) =
      unreachable (append "Cannot reach " (append client.endpoint (append ": " why)))

  abbrev pub soap_action : String → String
  soap_action operation = append "\"" (append client.namespace (append "/" (append operation "\"")))

  abbrev pub received : String → Posted Wire × W → SoapResult × W
  received operation (posted, w) = (on_posted operation posted, w)

  -- `_call`; the correlation id of the context is the argument `id`
  unfoldable pub call : String → List (String × Option String) → W → SoapResult × W
  unfolding build_envelope parse_response
  call operation fields w = received operation (
      client.post (soap_action operation)
        (build_envelope xml operation fields client.namespace
          (record { username = client.username; password = client.password; correlation_id = id }))
        w)

  unfoldable pub authorize :
      String
      → String
      → String
      → String
      → String
      → String
      → Option String
      → Option String
      → Option String
      → Option String
      → W
      → SoapResult × W
  unfolding call
  authorize pan processing_code amount_minor entry_mode rrn currency_code pin_block_hex ksn stan
        account_id_2 w =
      call "authorizeRequest"
        (("pan", some pan)
          ∷ ("processingCode", some processing_code)
          ∷ ("amountMinor", some amount_minor)
          ∷ ("entryMode", some entry_mode)
          ∷ ("rrn", some rrn)
          ∷ ("currencyCode", some currency_code)
          ∷ ("pinBlockHex", pin_block_hex)
          ∷ ("ksn", ksn)
          ∷ ("stan", stan)
          ∷ ("accountId2", account_id_2)
          ∷ [])
        w

  unfoldable pub reverse : String → String → String → String → String → W → SoapResult × W
  unfolding call
  reverse original_mti original_stan rrn amount_minor pan w =
      call "reverseRequest"
        (("originalMti", some original_mti)
          ∷ ("originalStan", some original_stan)
          ∷ ("rrn", some rrn)
          ∷ ("amountMinor", some amount_minor)
          ∷ ("pan", some pan)
          ∷ [])
        w

  unfoldable pub network_management : String → W → SoapResult × W
  unfolding call
  network_management network_code w =
      call "networkManagementRequest" (("networkCode", some network_code) ∷ []) w
