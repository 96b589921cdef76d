-- ===== src/Ace/Told.antt =====
-- What the adapter is told of an authorization that goes through the SOAP client and the gateway.
use microfinance_microservic.Common.{◌≡◌, refl, ap, ◌∙◌, String, Option, some, HasEq-text, arith}
use microfinance_microservic.Common.Text.{append, string_of, AllChars-append}
use microfinance_microservic.Iso8583.Bcd.{Text}
use microfinance_microservic.Soap.Tree.{Xml, IsPlain, IsPrintable, PlainOption}
use microfinance_microservic.Soap.Envelope.{
  get, iso8583_ns, Credentials, build_envelope, build_response, build_fault,
}
use microfinance_microservic.Soap.Client.{on_parsed, on_posted, received, response}
use microfinance_microservic.Soap.Fields.{present}
use microfinance_microservic.Soap.Roundtrip.{
  parse_request-build_envelope, parse_response-build_response, parse_response-build_fault,
}
use microfinance_microservic.Switch.Client.{Fields, get_field}
use microfinance_microservic.Switch.Host.{mti_request}
use microfinance_microservic.Adapter.{SoapAuthorize}
use microfinance_microservic.Ace.Codes.{response_text}
use microfinance_microservic.Ace.Mediation.{string_or, string_option, iso_to_soap_authorize}
use microfinance_microservic.Ace.Endpoint.{
  Sent, answered, timed_out, connection_error, failed, Texts, soap_endpoint, on_sent, on_request,
  on_mediated, after_sending, authorizing, timeout_text, server_fault,
}
use microfinance_microservic.Ace.Mapping.{authorize_mapped}
use microfinance_microservic.Ace.Chain.{Settings, client, posted, gateway, amount_to_de4}
use microfinance_microservic.Ace.Amounts.{amount_given}
use microfinance_microservic.Ace.Sendable.{
  IsSendable, fields_of, elements_of, told, IsTold, authorize_fields-Distinct, plain_fields,
  timeout_text-IsPlain, timeout_text-IsTrim, answer_fields-Distinct, server-IsTrim,
  timeout-IsVerbatim, down-IsVerbatim,
}

module _ {Wire W : Type 0} (xml : Xml Wire) (send_and_wait : Text → Fields → W → Sent × W)
    (texts : Texts Wire) (settings : Settings Wire)
    (encrypt : String → String → W → Option (String × String) × W)
    (seconds : IsPlain texts.switch_timeout) where
  on_parsed_told :
      (r : SoapAuthorize) (outcome : Sent)
      → IsTold r.rrn outcome
      → on_posted xml
          (client xml send_and_wait texts settings)
          settings.correlation_id
          "authorizeRequest"
          (response
            (on_sent xml send_and_wait texts authorizing (present (fields_of r)) outcome).0
            (on_sent xml send_and_wait texts authorizing (present (fields_of r)) outcome).1)
        ≡ told texts.switch_timeout r.rrn outcome
  unfolding on_sent get
  on_parsed_told r (answered parsed) h =
      ap
        (on_parsed xml (client xml send_and_wait texts settings) settings.correlation_id 200
          (build_response xml "authorizeResponse" (iso_to_soap_authorize parsed r.rrn) iso8583_ns))
        (parse_response-build_response xml "authorizeResponse" iso8583_ns
          (iso_to_soap_authorize parsed r.rrn) refl refl refl refl
          (answer_fields-Distinct (string_or "" (get_field 39 parsed.fields))
            (response_text (get_field 39 parsed.fields))
            (string_option (get_field 38 parsed.fields))
            (string_or "000000" (get_field 11 parsed.fields))
            (string_or r.rrn (get_field 37 parsed.fields)) (string_of parsed.mti))
          h)
  on_parsed_told r timed_out h =
      ap
        (on_parsed xml (client xml send_and_wait texts settings) settings.correlation_id 504 (
          build_fault xml
            (server_fault (timeout_text texts.switch_timeout) (some "category=SWITCH_TIMEOUT"))))
        (parse_response-build_fault xml
          (server_fault (timeout_text texts.switch_timeout) (some "category=SWITCH_TIMEOUT"))
          server-IsTrim (timeout_text-IsTrim texts.switch_timeout) (omega arith)
          (timeout_text-IsPlain texts.switch_timeout seconds) timeout-IsVerbatim)
  on_parsed_told r (connection_error why) h =
      ap
        (on_parsed xml (client xml send_and_wait texts settings) settings.correlation_id 503 (
          build_fault xml (
            server_fault (append "No connection to the switch: " why)
              (some "category=SWITCH_DOWN"))))
        (parse_response-build_fault xml
          (server_fault (append "No connection to the switch: " why) (some "category=SWITCH_DOWN"))
          server-IsTrim h.1 (omega arith)
          (AllChars-append IsPrintable "No connection to the switch: " why (omega arith) h.0)
          down-IsVerbatim)
  on_parsed_told r failed h = absurd h

  -- The endpoint sends the data elements of a request, and answers by what comes of them.
  endpoint_lem :
      (r : SoapAuthorize) (block : Fields) (w : W) (c : Credentials)
      → IsSendable r block
      → PlainOption c.username
      → PlainOption c.password
      → PlainOption c.correlation_id
      → soap_endpoint xml send_and_wait texts
          (build_envelope xml "authorizeRequest" (fields_of r) iso8583_ns c)
          w
        ≡ after_sending xml send_and_wait texts authorizing
            (present (fields_of r))
            (send_and_wait mti_request (elements_of r block) w)
  unfolding soap_endpoint
  endpoint_lem r block w c h hu hp hi =
      ap (λ p. on_request xml send_and_wait texts p w)
        (parse_request-build_envelope xml "authorizeRequest" iso8583_ns (fields_of r) c refl refl
          refl
          (authorize_fields-Distinct r.pan r.processing_code (amount_to_de4 r.amount_minor)
            r.entry_mode r.rrn r.currency_code r.pin_block r.account_id_2)
          (plain_fields r block h) hu hp hi)
      ∙ ap (λ m. on_mediated xml send_and_wait texts authorizing (present (fields_of r)) m w)
          (authorize_mapped texts.hex_error r.pan r.processing_code (amount_to_de4 r.amount_minor)
            r.entry_mode r.rrn r.currency_code h.given_pan h.given_code
            (amount_given r.amount_minor) h.given_rrn r.pin_block r.account_id_2 block h.is_block)

  -- The gateway's client is told what came of the message.
  pub gateway_lem :
      (r : SoapAuthorize) (block : Fields) (w : W)
      → IsSendable r block
      → PlainOption settings.username
      → PlainOption settings.password
      → PlainOption settings.correlation_id
      → IsTold r.rrn (send_and_wait mti_request (elements_of r block) w).0
      → (gateway xml send_and_wait texts settings encrypt).authorize r w ≡ (
        told texts.switch_timeout r.rrn (send_and_wait mti_request (elements_of r block) w).0,
        (send_and_wait mti_request (elements_of r block) w).1,
      )
  unfolding gateway
  gateway_lem r block w h hu hp hi outcome =
      ap
        (λ p.
          received xml (client xml send_and_wait texts settings) settings.correlation_id
            "authorizeRequest" (posted xml send_and_wait texts settings p))
        (endpoint_lem r block w
          (record {
            username = settings.username;
            password = settings.password;
            correlation_id = settings.correlation_id;
          })
          h hu hp hi)
      ∙ ap (λ o. (o, (send_and_wait mti_request (elements_of r block) w).1))
          (on_parsed_told r (send_and_wait mti_request (elements_of r block) w).0 outcome)
