-- ===== src/Ace/Reported.antt =====
-- An authorization of services/iso8583-adapter, through the SOAP gateway to the switch.
use microfinance_microservic.Common.{
  ◌≡◌, refl, ap, ◌∙◌, String, true, false, Option, none, some, List, [], ◌∷◌, ◌++◌, ◌==◌,
  HasEq-text, if◌then◌else◌,
}
use microfinance_microservic.Common.Text.{append, string_of}
use microfinance_microservic.Iso8583.Bcd.{Text}
use microfinance_microservic.Iso8583.Message.{Message}
use microfinance_microservic.Saga.Interface.{AuthOutcome, or_text}
use microfinance_microservic.Soap.Tree.{Xml, IsPlain, PlainOption}
use microfinance_microservic.Soap.Client.{SoapResult}
use microfinance_microservic.Soap.Fields.{present}
use microfinance_microservic.Switch.Client.{Fields, get_field}
use microfinance_microservic.Switch.Host.{mti_request}
use microfinance_microservic.Adapter.{
  AuthorizeRequest, AuthorizeResponse, SoapAuthorize, Reply, returned, raised, State, SoapCall,
  authorizing, authorize, sent, on_result, pin_block, soap_request, decided, unknown,
}
use microfinance_microservic.Ace.Codes.{response_text}
use microfinance_microservic.Ace.Mediation.{string_or, string_option, iso_to_soap_authorize}
use microfinance_microservic.Ace.Endpoint.{
  Sent, answered, timed_out, connection_error, failed, Texts, timeout_text,
}
use microfinance_microservic.Ace.Chain.{Settings, gateway}
use microfinance_microservic.Ace.Sendable.{IsSendable, IsTold, elements_of, told, answer_fields}
use microfinance_microservic.Ace.Told.{gateway_lem}

-- What the adapter reports of a message of the switch: approved exactly where the field 39 is 00.
abbrev pub response_of : String → Message → AuthorizeResponse
response_of rrn parsed =
    let code = string_or "" (get_field 39 parsed.fields) in
    record {
      outcome = if code == "00" then AuthOutcome.approved else AuthOutcome.declined;
      response_code = some code;
      response_text = some (response_text (get_field 39 parsed.fields));
      authorization_id = string_option (get_field 38 parsed.fields);
      stan = some (string_or "000000" (get_field 11 parsed.fields));
      rrn = or_text (some (string_or rrn (get_field 37 parsed.fields))) rrn;
      reversal_sent = false;
    }

-- What the adapter reports, by what came of the message
abbrev pub reported : String → String → Sent → Reply AuthorizeResponse
reported seconds rrn (answered parsed) = returned (response_of rrn parsed)
reported seconds rrn timed_out = returned (unknown (timeout_text seconds) rrn true)
reported seconds rrn (connection_error why) =
    raised 503 (append "Switch unavailable: " (append "No connection to the switch: " why))
reported seconds rrn failed = raised 500 ""

-- What an authorization comes to that asks the correlation layer for one message: the reply that is reported
-- of the layer's answer, in the world that the layer leaves, and one call of the gateway
abbrev pub one_message :
    {W : Type 0}
    → String
    → AuthorizeRequest
    → SoapAuthorize
    → List SoapCall
    → Sent × W
    → Reply AuthorizeResponse × State W
one_message seconds body request calls (outcome, w) = (
  reported seconds body.rrn outcome,
  record { world = w; calls = calls ++ authorizing request ∷ [] },
)

decided-present :
    (own code meaning : String) (auth_id : Option String) (stan rrn mti : String)
    → decided own (present (answer_fields code meaning auth_id stan rrn mti)) ≡ record {
      outcome = if code == "00" then AuthOutcome.approved else AuthOutcome.declined;
      response_code = some code;
      response_text = some meaning;
      authorization_id = auth_id;
      stan = some stan;
      rrn = or_text (some rrn) own;
      reversal_sent = false;
    }
unfolding on_result
decided-present own code meaning none stan rrn mti = refl
decided-present own code meaning (some id) stan rrn mti = refl

module _ {Wire W : Type 0} (xml : Xml Wire) (send_and_wait : Text → Fields → W → Sent × W)
    (texts : Texts Wire) (settings : Settings Wire)
    (encrypt : String → String → W → Option (String × String) × W) (default_currency : String) where
  on_told :
      (body : AuthorizeRequest) (outcome : Sent) (st : State W)
      → IsTold body.rrn outcome
      → (on_result
          (gateway xml send_and_wait texts settings encrypt)
          default_currency
          body
          (told texts.switch_timeout body.rrn outcome)
          st)
        ≡ (reported texts.switch_timeout body.rrn outcome, st)
  unfolding on_result iso_to_soap_authorize
  on_told body (answered parsed) st h =
      ap (λ r. (returned r, st))
        (decided-present body.rrn (string_or "" (get_field 39 parsed.fields))
          (response_text (get_field 39 parsed.fields)) (string_option (get_field 38 parsed.fields))
          (string_or "000000" (get_field 11 parsed.fields))
          (string_or body.rrn (get_field 37 parsed.fields)) (string_of parsed.mti))
  on_told body timed_out st h = refl
  on_told body (connection_error why) st h = refl
  on_told body failed st h = absurd h

  -- The request that the adapter makes of its gateway
  abbrev pub request_with : AuthorizeRequest → Option (String × String) → SoapAuthorize
  request_with body pair =
      soap_request (gateway xml send_and_wait texts settings encrypt) default_currency body pair

  -- The call of the gateway, once the PIN block is built.
  pub sent_reported :
      (body : AuthorizeRequest) (calls : List SoapCall) (pair : Option (String × String)) (w : W)
      (block : Fields)
      → IsPlain texts.switch_timeout
      → PlainOption settings.username
      → PlainOption settings.password
      → PlainOption settings.correlation_id
      → IsSendable (request_with body pair) block
      → IsTold body.rrn (send_and_wait mti_request (elements_of (request_with body pair) block) w).0
      → sent
          (gateway xml send_and_wait texts settings encrypt)
          default_currency
          body
          calls
          (some pair, w)
        ≡ one_message texts.switch_timeout body
            (request_with body pair)
            calls
            (send_and_wait mti_request (elements_of (request_with body pair) block) w)
  unfolding sent
  sent_reported body calls pair w block plain hu hp hi sendable outcome =
      let g = gateway xml send_and_wait texts settings encrypt in
      let request = request_with body pair in
      let result = send_and_wait mti_request (elements_of request block) w in
      ap
        (λ (o : SoapResult × W).
          on_result g default_currency body o.0
            (record { world = o.1; calls = calls ++ authorizing request ∷ [] }))
        (gateway_lem xml send_and_wait texts settings encrypt plain request block w sendable hu hp
          hi outcome)
      ∙ on_told body result.0
          (record { world = result.1; calls = calls ++ authorizing request ∷ [] }) outcome

  -- Whatever the correlation layer does with what it is given, and where the HSM answers: an authorization
  -- is one call of it, for a financial request of the data elements of the card, the processing code, the
  -- amount in twelve digits, the entry mode, the reference, the currency, the PIN block and the account to
  -- credit, in the world that the HSM leaves; it ends in the world that this call leaves, with one call
  -- of the gateway, and the adapter reports what came of it: approved exactly where the field 39 of the
  -- answer is 00, with the fields 38, 11 and 37; unknown and reversed where the layer has timed out; an error
  -- 503 where the connection is down. The texts are printable, the request is one that the mediation
  -- takes, and no other exception escapes the gateway.
  pub authorize_reported :
      (body : AuthorizeRequest) (st : State W) (pair : Option (String × String)) (w : W)
      (block : Fields)
      → IsPlain texts.switch_timeout
      → PlainOption settings.username
      → PlainOption settings.password
      → PlainOption settings.correlation_id
      → pin_block
          (gateway xml send_and_wait texts settings encrypt)
          default_currency
          body
          body.pin
          st.world
        ≡ (some pair, w)
      → IsSendable (request_with body pair) block
      → IsTold body.rrn (send_and_wait mti_request (elements_of (request_with body pair) block) w).0
      → authorize (gateway xml send_and_wait texts settings encrypt) default_currency body st
        ≡ one_message texts.switch_timeout body
            (request_with body pair)
            st.calls
            (send_and_wait mti_request (elements_of (request_with body pair) block) w)
  unfolding authorize
  authorize_reported body st pair w block plain hu hp hi made sendable outcome =
      ap (sent (gateway xml send_and_wait texts settings encrypt) default_currency body st.calls)
        made
      ∙ sent_reported body st.calls pair w block plain hu hp hi sendable outcome
