-- ===== src/Ace/EndToEnd.antt =====
-- An authorization from services/iso8583-adapter to the host and back, and one whose connection drops.
use microfinance_microservic.Common.{HasEq-text}
use microfinance_microservic.Adapter.{pin_block}
use microfinance_microservic.Common.{
  ◌≡◌, refl, sym, ap, ◌∙◌, String, true, false, Option, none, some, subst, List, [], ◌∷◌, ◌++◌, All,
  arith,
}
use microfinance_microservic.Common.Text.{codes}
use microfinance_microservic.Iso8583.Bcd.{Bytes, Text}
use microfinance_microservic.Iso8583.Message.{Message, numbers}
use microfinance_microservic.Iso8583.FieldRoundtrip.{FitsField}
use microfinance_microservic.Iso8583.MessageRoundtrip.{Distinct}
use microfinance_microservic.Saga.Interface.{or_text}
use microfinance_microservic.Soap.Tree.{Xml, IsPlain, PlainOption}
use microfinance_microservic.Switch.Client.{Fields, get_field, next_stan, frame}
use microfinance_microservic.Switch.Correlation.{
  Manager, popped, waiting, send, handle_incoming, response_of,
}
use microfinance_microservic.Adapter.{SoapCall}
use microfinance_microservic.Switch.Reversal.{Framed}
use microfinance_microservic.Switch.Approved.{
  send_lem, response_message-request, after_send-Waits, approval-stan, request-Framed,
}
use microfinance_microservic.Switch.Host.{response_message, mti_request, mti_response, is_silent}
use microfinance_microservic.Switch.Approved.{outgoing, call_of, approval, message_of, after_send}
use microfinance_microservic.Adapter.{
  AuthorizeRequest, Reply, Gateway, State, SoapAuthorize, authorize,
}
use microfinance_microservic.Ace.Endpoint.{Sent, answered, connection_error, Texts}
use microfinance_microservic.Ace.Chain.{Settings, gateway}
use microfinance_microservic.Ace.Sendable.{IsSendable, IsTold, elements_of}
use microfinance_microservic.Ace.Reported.{authorize_reported, one_message}
use microfinance_microservic.Ace.Switched.{send_and_wait}
use microfinance_microservic.Ace.Approval.{approval_response, approval_told, reported-approval}
use microfinance_microservic.Ace.Calls.{
  send_and_wait-received, call_lost, sent-next_stan, lost-IsTrim,
}

-- The PIN block of a request, of an HSM that answers a PIN and a card.
abbrev pub card_block :
    (String → String → String × String)
    → AuthorizeRequest
    → Option String
    → Option (String × String)
card_block hsm body none = none
card_block hsm body (some pin) = some (hsm pin body.card_number)

-- The request that the adapter makes of its gateway
abbrev pub card_request :
    (String → String → String × String) → String → AuthorizeRequest → SoapAuthorize
card_request hsm default_currency body = record {
  pan = body.card_number;
  processing_code = body.processing_code;
  amount_minor = body.amount_cents;
  entry_mode = body.entry_mode;
  rrn = body.rrn;
  currency_code = or_text body.currency_code default_currency;
  pin_block = card_block hsm body body.pin;
  account_id_2 = body.credit_account;
}

module _ {Wire : Type 0} (xml : Xml Wire) (texts : Texts Wire) (settings : Settings Wire)
    (hsm : String → String → String × String) (default_currency : String) where
  abbrev pub encrypt : String → String → Manager → Option (String × String) × Manager
  encrypt pin pan m = (some (hsm pin pan), m)

  -- The gateway of the adapter, where other threads do this while a call waits
  abbrev pub switched : (Manager → Manager) → Gateway Manager
  switched meanwhile = gateway xml (send_and_wait meanwhile) texts settings encrypt

  pin_block_lem :
      (meanwhile : Manager → Manager) (body : AuthorizeRequest) (pin : Option String) (m : Manager)
      → pin_block (switched meanwhile) default_currency body pin m
        ≡ (some (card_block hsm body pin), m)
  unfolding pin_block gateway
  pin_block_lem meanwhile body none m = refl
  pin_block_lem meanwhile body (some pin) m = refl

  -- What is told, by what the correlation layer comes to.
  switched-reported :
      (meanwhile : Manager → Manager) (body : AuthorizeRequest) (st : State Manager)
      (block : Fields) (outcome : Sent × Manager)
      → IsPlain texts.switch_timeout
      → PlainOption settings.username
      → PlainOption settings.password
      → PlainOption settings.correlation_id
      → IsSendable (card_request hsm default_currency body) block
      → (send_and_wait meanwhile mti_request
          (elements_of (card_request hsm default_currency body) block)
          st.world)
        ≡ outcome
      → IsTold body.rrn outcome.0
      → authorize (switched meanwhile) default_currency body st
        ≡ one_message texts.switch_timeout body
            (card_request hsm default_currency body)
            st.calls
            outcome
  switched-reported meanwhile body st block outcome plain hu hp hi sendable e told =
      authorize_reported xml (send_and_wait meanwhile) texts settings encrypt default_currency body
        st (card_block hsm body body.pin) st.world block plain hu hp hi
        (pin_block_lem meanwhile body body.pin st.world) sendable
        (subst (λ o. IsTold body.rrn o.0) (sym e) told)
      ∙ ap (one_message texts.switch_timeout body (card_request hsm default_currency body) st.calls)
          e

  -- From the adapter to the host: on a connection that is up, an authorization goes onto the wire as one
  -- message and nothing else does, a financial request of its data elements under the next STAN, which the
  -- switch parses as fields `held` that build the same bytes; the host, where the field 48 does not silence it, approves them; and where that approval is what
  -- arrives while the call waits, the adapter reports the authorization approved, with the host's
  -- authorization code, the STAN and the reference of the request.
  pub authorize_approved :
      (body : AuthorizeRequest) (m : Manager) (calls : List SoapCall) (block held : Fields)
      (raw : Bytes)
      → IsPlain texts.switch_timeout
      → PlainOption settings.username
      → PlainOption settings.password
      → PlainOption settings.correlation_id
      → IsSendable (card_request hsm default_currency body) block
      → m.client.connected ≡ true
      → frame mti_request (outgoing (elements_of (card_request hsm default_currency body) block) m)
        ≡ some raw
      → frame mti_request held ≡ some raw
      → All FitsField held
      → Distinct (numbers held)
      → get_field 11 held ≡ some (next_stan m.client).0
      → get_field 37 held ≡ some (codes body.rrn)
      → is_silent (get_field 48 held) ≡ false
      → Framed mti_request held raw
        × (response_message (message_of mti_request held)
            ≡ some (mti_response, approval (next_stan m.client).0 (some (codes body.rrn))))
        × ((authorize
              (switched (
                handle_incoming (
                  message_of mti_response
                    (approval (next_stan m.client).0 (some (codes body.rrn))))))
              default_currency
              body
              (record { world = m; calls = calls })).0
            ≡ Reply.returned (approval_response body.rrn (next_stan m.client).0))
        × ((authorize
              (switched (
                handle_incoming (
                  message_of mti_response
                    (approval (next_stan m.client).0 (some (codes body.rrn))))))
              default_currency
              body
              (record { world = m; calls = calls })).1.world.client.sent
            ≡ m.client.sent ++ raw ∷ [])
  authorize_approved body m calls block held raw plain hu hp hi sendable up framed built fits
        distinct numbered referred speaks =
      let fields : Fields = elements_of (card_request hsm default_currency body) block in
      let stan : Text = (next_stan m.client).0 in
      let reply : Message = message_of mti_response (approval stan (some (codes body.rrn))) in
      let whole =
        switched-reported (handle_incoming reply) body (record { world = m; calls = calls }) block
          (
            answered reply,
            popped stan (after_send raw m).client (handle_incoming reply (after_send raw m)),
          )
          plain hu hp hi sendable
          (send_and_wait-received fields m (after_send raw m) (call_of m) reply
            (send_lem fields m raw up framed) (after_send-Waits raw m)
            (approval-stan stan (some (codes body.rrn))))
          (approval_told m body.rrn body.rrn sendable.plain_rrn) in
      (
        request-Framed held raw fits distinct built,
        response_message-request stan held distinct numbered speaks
            ∙ ap (λ o. some (mti_response, approval stan o)) referred,
        ap (λ o. o.0) whole
            ∙ reported-approval texts.switch_timeout stan body.rrn sendable.plain_rrn,
        ap (λ o. o.1.world.client.sent) whole
            ∙ ap (λ sent. sent ++ raw ∷ []) (sent-next_stan m.client),
      )

  -- An authorization whose connection drops while its call waits, without a response: other threads find
  -- its request on the wire, it sends nothing after what they have sent, no reversal of it therefore, and
  -- the adapter raises a 503 that says the switch was not reached.
  pub authorize_lost :
      (meanwhile : Manager → Manager) (body : AuthorizeRequest) (m : Manager)
      (calls : List SoapCall) (block : Fields) (raw : Bytes)
      → IsPlain texts.switch_timeout
      → PlainOption settings.username
      → PlainOption settings.password
      → PlainOption settings.correlation_id
      → IsSendable (card_request hsm default_currency body) block
      → m.client.connected ≡ true
      → frame mti_request (outgoing (elements_of (card_request hsm default_currency body) block) m)
        ≡ some raw
      → (meanwhile (after_send raw m)).client.connected ≡ false
      → response_of m.requests (meanwhile (after_send raw m)).responses ≡ none
      → (send mti_request (elements_of (card_request hsm default_currency body) block) m
          ≡ (waiting (call_of m), after_send raw m))
        × ((send_and_wait meanwhile mti_request
              (elements_of (card_request hsm default_currency body) block)
              m).1.client.sent
            ≡ (meanwhile (after_send raw m)).client.sent)
        × ((after_send raw m).client.sent ≡ m.client.sent ++ raw ∷ [])
        × ((authorize
              (switched meanwhile)
              default_currency
              body
              (record { world = m; calls = calls })).1.world.client.sent
            ≡ (meanwhile (after_send raw m)).client.sent)
        × ((authorize
              (switched meanwhile)
              default_currency
              body
              (record { world = m; calls = calls })).0
            ≡ Reply.raised 503
                "Switch unavailable: No connection to the switch: Not connected to switch")
  authorize_lost meanwhile body m calls block raw plain hu hp hi sendable up framed down silent =
      let fields : Fields = elements_of (card_request hsm default_currency body) block in
      let lost = call_lost meanwhile fields m raw up framed down silent in
      let whole =
        switched-reported meanwhile body (record { world = m; calls = calls }) block
          (
            connection_error "Not connected to switch",
            popped (call_of m).stan (next_stan (meanwhile (after_send raw m)).client).1
                (meanwhile (after_send raw m)),
          )
          plain hu hp hi sendable lost (omega arith, lost-IsTrim) in
      let quiet = sent-next_stan (meanwhile (after_send raw m)).client in
      (
        send_lem fields m raw up framed,
        ap (λ o. o.1.client.sent) lost ∙ quiet,
        ap (λ sent. sent ++ raw ∷ []) (sent-next_stan m.client),
        ap (λ o. o.1.world.client.sent) whole ∙ quiet,
        ap (λ o. o.0) whole,
      )
