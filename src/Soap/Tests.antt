-- ===== src/Soap/Tests.antt =====
-- Envelopes, and instances of the theorems on them.
use microfinance_microservic.Common.{
  ◌≡◌, refl, String, Option, none, some, List, [], ◌∷◌, arith, true,
}
use microfinance_microservic.Soap.Tree.{malformed, strip}
use microfinance_microservic.Soap.Envelope.{
  Credentials, SoapFault, build_envelope, build_response, build_fault, parse_request,
  parse_response, iso8583_ns, body, faulted, protocol_error, not_well_formed,
}
use microfinance_microservic.Soap.Client.{is_client_fault}
use microfinance_microservic.Soap.Fields.{present, distinct-Distinct}
use microfinance_microservic.Soap.Roundtrip.{
  parse_request-build_envelope, parse_response-build_fault,
}
use microfinance_microservic.Soap.Headers.{told_headers}
use microfinance_microservic.Soap.Memory.{memory}

abbrev fields : List (String × Option String)
fields = ("pan", some "5555444433332222") ∷ ("ksn", none) ∷ ("rrn", some "") ∷ []

abbrev credentials : Credentials
credentials = record { username = some "adapter"; password = none; correlation_id = some "c-1" }

parse_request-build_envelope_example :
    parse_request memory (build_envelope memory "authorizeRequest" fields iso8583_ns credentials)
    ≡ body (record {
      operation = "authorizeRequest";
      fields = ("pan", "5555444433332222") ∷ ("rrn", "") ∷ [];
      headers = told_headers credentials;
    })
parse_request-build_envelope_example =
    parse_request-build_envelope memory "authorizeRequest" iso8583_ns fields credentials refl refl
      refl (distinct-Distinct (present fields) refl) (omega arith) (omega arith) tt (omega arith)

parse_response_run :
    parse_response memory
      (build_response memory "authorizeResponse" (("responseCode", some "05") ∷ []) iso8583_ns)
    ≡ body (("responseCode", "05") ∷ [])
unfolding parse_response build_response
parse_response_run = refl

abbrev silence : SoapFault
silence = record {
  code = "soapenv:Server";
  string = "no answer";
  detail = some "category=SWITCH_TIMEOUT";
}

parse_response-build_fault_example :
    parse_response memory (build_fault memory silence)
    ≡ faulted (record {
      code = "soapenv:Server";
      string = "no answer";
      detail = some "<detail>category=SWITCH_TIMEOUT</detail>";
    })
unfolding strip
parse_response-build_fault_example =
    parse_response-build_fault memory silence (refl, λ e. cc) (refl, λ e. cc) (omega arith)
      (omega arith) (ground arith)

not_xml :
    parse_response memory (malformed "syntax error")
    ≡ protocol_error (not_well_formed "syntax error")
unfolding parse_response
not_xml = refl

client_is_blamed :
    is_client_fault (record { code = "soapenv:Client.Bad"; string = ""; detail = none }) ≡ true
unfolding is_client_fault
client_is_blamed = refl
