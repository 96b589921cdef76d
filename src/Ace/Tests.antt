-- ===== src/Ace/Tests.antt =====
-- Authorizations through the gateway, and instances of the theorems.
use microfinance_microservic.Common.{
  ℕ, ◌≡◌, refl, String, true, false, none, some, Option, ◌++◌, [], ◌∷◌, ◌+◌, arith,
}
use microfinance_microservic.Common.Int.{pos}
use microfinance_microservic.Common.Text.{codes}
use microfinance_microservic.Iso8583.Bcd.{Bytes, Text, bcd_encode, fromhex, hex_value}
use microfinance_microservic.Iso8583.Bitmap.{build_bitmap, any_above, set_bits, set_bit, or_byte}
use microfinance_microservic.Iso8583.Catalog.{field_spec, find_spec, field_specs}
use microfinance_microservic.Iso8583.Fields.{
  encode_fields, encode_field, encode_as, decimal, rstrip, two_digits,
}
use microfinance_microservic.Iso8583.Message.{Message, in_order, insert, build_message}
use microfinance_microservic.Soap.Tree.{Document, malformed}
use microfinance_microservic.Soap.Memory.{memory}
use microfinance_microservic.Switch.Framing.{write_framed_message, to_bytes}
use microfinance_microservic.Switch.Client.{Fields, frame, get_field, put_field, next_stan}
use microfinance_microservic.Switch.Correlation.{
  Manager, handle_incoming, with_client, send, waiting,
}
use microfinance_microservic.Switch.Host.{mti_request, mti_response, response_message, is_silent}
use microfinance_microservic.Switch.Correlation.{response_of}
use microfinance_microservic.Switch.Reversal.{Framed}
use microfinance_microservic.Switch.Approved.{outgoing, call_of, approval, message_of, after_send}
use microfinance_microservic.Adapter.{AuthorizeRequest, pin_block, Reply, authorize}
use microfinance_microservic.Ace.Endpoint.{Sent, answered, Texts}
use microfinance_microservic.Ace.Mediation.{iso_to_soap_authorize}
use microfinance_microservic.Ace.Chain.{Settings, gateway, amount_to_de4}
use microfinance_microservic.Ace.Sendable.{IsSendable, elements_of}
use microfinance_microservic.Ace.Reported.{authorize_reported, one_message}
use microfinance_microservic.Ace.Approval.{approval_response}
use microfinance_microservic.Ace.EndToEnd.{
  card_request, switched, authorize_approved, authorize_lost,
}
use microfinance_microservic.Ace.Switched.{send_and_wait}

abbrev texts : Texts Document
texts = record {
  switch_timeout = "10.0";
  hex_error = λ s. "non-hexadecimal number found";
  server_error = malformed "syntax error";
}

abbrev settings : Settings Document
settings = record {
  endpoint = "http://ace-stub:8090/Iso8583Gateway";
  username = none;
  password = none;
  timeout_text = λ operation. "no response";
  non_soap_text = λ status content. "no SOAP";
  correlation_id = some "c-1";
}

abbrev body : AuthorizeRequest
body = record {
  card_number = "5555444433332222";
  pin = some "1234";
  amount_cents = pos 5000;
  processing_code = "000000";
  entry_mode = "05";
  rrn = "170000000042";
  currency_code = none;
  credit_account = none;
}

abbrev hsm : String → String → String × String
hsm pin pan = ("0000000001", "0011223344556677")

abbrev block : Fields
block = (52, 0 ∷ 17 ∷ 34 ∷ 51 ∷ 68 ∷ 85 ∷ 102 ∷ 119 ∷ []) ∷ []

sendable : IsSendable (card_request hsm "840" body) block
unfolding fromhex
sendable = record {
  given_pan = λ e. cc;
  given_code = λ e. cc;
  given_rrn = λ e. cc;
  plain_pan = omega arith;
  plain_code = omega arith;
  plain_mode = omega arith;
  plain_rrn = omega arith;
  plain_currency = omega arith;
  plain_hex = omega arith;
  plain_ksn = omega arith;
  plain_account = tt;
  is_block = (λ e. cc, 0 ∷ 17 ∷ 34 ∷ 51 ∷ 68 ∷ 85 ∷ 102 ∷ 119 ∷ [], refl, refl, refl);
}

abbrev manager : Manager
manager = record {
  client = record { connected = true; stan_counter = 41; sent = [] };
  pending = [];
  requests = 4;
  responses = [];
  downstream = [];
}

-- What goes onto the wire: the PIN's serial number is filled up, and the entry mode.
amount_run : amount_to_de4 (pos 5000) ≡ "000000005000"
unfolding amount_to_de4
amount_run = refl

-- What the switch parses: the entry mode and the serial number are filled up.
abbrev held : Fields
held =
    (2, codes "5555444433332222")
    ∷ (3, codes "000000")
    ∷ (4, codes "000000005000")
    ∷ (11, codes "000042")
    ∷ (22, codes "005")
    ∷ (37, codes "170000000042")
    ∷ (49, codes "840")
    ∷ (52, 0 ∷ 17 ∷ 34 ∷ 51 ∷ 68 ∷ 85 ∷ 102 ∷ 119 ∷ [])
    ∷ (53, codes "0000000000000001")
    ∷ []

abbrev raw : Bytes
raw =
    0 ∷ 63 ∷ 2 ∷ 0 ∷ 112 ∷ 32 ∷ 4 ∷ 0 ∷ 8 ∷ 0 ∷ 152 ∷ 0 ∷ 22 ∷ 85 ∷ 85 ∷ 68 ∷ 68 ∷ 51 ∷ 51 ∷ 34 ∷ 34
    ∷ 0 ∷ 0 ∷ 0 ∷ 0 ∷ 0 ∷ 0 ∷ 0 ∷ 80 ∷ 0 ∷ 0 ∷ 0 ∷ 66 ∷ 0 ∷ 95 ∷ 49 ∷ 55 ∷ 48 ∷ 48 ∷ 48 ∷ 48 ∷ 48
    ∷ 48 ∷ 48 ∷ 48 ∷ 52 ∷ 50 ∷ 132 ∷ 15 ∷ 0 ∷ 17 ∷ 34 ∷ 51 ∷ 68 ∷ 85 ∷ 102 ∷ 119 ∷ 0 ∷ 0 ∷ 0 ∷ 0 ∷ 0
    ∷ 0 ∷ 0 ∷ 1 ∷ []

framed :
    frame mti_request (outgoing (elements_of (card_request hsm "840" body) block) manager)
    ≡ some raw
unfolding frame build_message bcd_encode fromhex hex_value build_bitmap any_above set_bits set_bit
    or_byte in_order insert encode_fields field_spec find_spec field_specs encode_field encode_as
    write_framed_message to_bytes put_field next_stan amount_to_de4 two_digits decimal
framed = refl

built : frame mti_request held ≡ some raw
unfolding frame build_message bcd_encode fromhex hex_value build_bitmap any_above set_bits set_bit
    or_byte in_order insert encode_fields field_spec find_spec field_specs encode_field encode_as
    write_framed_message to_bytes put_field next_stan amount_to_de4 two_digits decimal
built = refl

abbrev reply : Message
reply =
    message_of mti_response (approval (next_stan manager.client).0 (some (codes "170000000042")))

authorize_approved_example :
    Framed mti_request held raw
    × (response_message (message_of mti_request held)
        ≡ some (mti_response, approval (next_stan manager.client).0 (some (codes "170000000042"))))
    × ((authorize
          (switched memory texts settings hsm "840" (handle_incoming reply))
          "840"
          body
          (record { world = manager; calls = [] })).0
        ≡ Reply.returned (approval_response "170000000042" (next_stan manager.client).0))
    × ((authorize
          (switched memory texts settings hsm "840" (handle_incoming reply))
          "840"
          body
          (record { world = manager; calls = [] })).1.world.client.sent
        ≡ manager.client.sent ++ raw ∷ [])
unfolding next_stan get_field is_silent field_spec find_spec field_specs rstrip
authorize_approved_example =
    authorize_approved memory texts settings hsm "840" body manager [] block held raw (omega arith)
      tt tt (omega arith) sendable refl framed built
      (
        omega arith,
        (
          omega arith,
          (
            omega arith,
            (
              omega arith,
              (
                omega arith,
                ((omega arith, omega arith, refl), (omega arith, (omega arith, (omega arith, tt)))),
              ),
            ),
          ),
        ),
      )
      (refl, (refl, (refl, (refl, (refl, (refl, (refl, (refl, (refl, tt))))))))) refl refl refl

-- The connection drops while the call waits.
abbrev dropped : Manager → Manager
dropped m =
    with_client
      (record { connected = false; stan_counter = m.client.stan_counter; sent = m.client.sent }) m

authorize_lost_example :
    (send mti_request (elements_of (card_request hsm "840" body) block) manager
      ≡ (waiting (call_of manager), after_send raw manager))
    × ((send_and_wait dropped mti_request
          (elements_of (card_request hsm "840" body) block)
          manager).1.client.sent
        ≡ (dropped (after_send raw manager)).client.sent)
    × ((after_send raw manager).client.sent ≡ manager.client.sent ++ raw ∷ [])
    × ((authorize
          (switched memory texts settings hsm "840" dropped)
          "840"
          body
          (record { world = manager; calls = [] })).1.world.client.sent
        ≡ (dropped (after_send raw manager)).client.sent)
    × ((authorize
          (switched memory texts settings hsm "840" dropped)
          "840"
          body
          (record { world = manager; calls = [] })).0
        ≡ Reply.raised 503
            "Switch unavailable: No connection to the switch: Not connected to switch")
unfolding response_of
authorize_lost_example =
    authorize_lost memory texts settings hsm "840" dropped body manager [] block raw (omega arith)
      tt tt (omega arith) sendable refl framed refl refl

-- A switch that declines, and counts its messages.
abbrev declined : Message
declined = record { mti = mti_response; fields = (11, codes "000042") ∷ (39, codes "51") ∷ [] }

abbrev declining : Text → Fields → ℕ → Sent × ℕ
declining mti fields n = (answered declined, n + 1)

abbrev count_pins : String → String → ℕ → Option (String × String) × ℕ
count_pins pin pan n = (some (hsm pin pan), n + 100)

authorize_reported_example :
    authorize
      (gateway memory declining texts settings count_pins)
      "840"
      body
      (record { world = 0; calls = [] })
    ≡ one_message "10.0" body (card_request hsm "840" body) [] (answered declined, 101)
unfolding pin_block gateway get_field iso_to_soap_authorize fromhex
authorize_reported_example =
    authorize_reported memory declining texts settings count_pins "840" body
      (record { world = 0; calls = [] }) (some (hsm "1234" "5555444433332222")) 100 block
      (omega arith) tt tt (omega arith) refl
      (record {
        given_pan = λ e. cc;
        given_code = λ e. cc;
        given_rrn = λ e. cc;
        plain_pan = omega arith;
        plain_code = omega arith;
        plain_mode = omega arith;
        plain_rrn = omega arith;
        plain_currency = omega arith;
        plain_hex = omega arith;
        plain_ksn = omega arith;
        plain_account = tt;
        is_block = (λ e. cc, 0 ∷ 17 ∷ 34 ∷ 51 ∷ 68 ∷ 85 ∷ 102 ∷ 119 ∷ [], refl, refl, refl);
      })
      (omega arith)
