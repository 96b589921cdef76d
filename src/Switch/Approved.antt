-- ===== src/Switch/Approved.antt =====
-- A request, the host's answer to it, and the call that waits for the answer.
use microfinance_microservic.Common.{
  ℕ, ◌≤◌, ◌≡◌, refl, ap, ◌∙◌, true, false, Option, none, some, [], ◌∷◌, ◌++◌, length, append-nil,
  nat_eq_iff, All, arith,
}
use microfinance_microservic.Iso8583.Bcd.{Bytes, Text}
use microfinance_microservic.Iso8583.Catalog.{field_spec, find_spec, field_specs}
use microfinance_microservic.Iso8583.Fields.{
  decode_fields, decode_field, decode_as, decode_body, rstrip,
}
use microfinance_microservic.Iso8583.Message.{Message, numbers, in_order, insert}
use microfinance_microservic.Iso8583.FieldRoundtrip.{FitsField}
use microfinance_microservic.Iso8583.MessageRoundtrip.{Distinct, message_lem}
use microfinance_microservic.Switch.Client.{Fields, get_field, put_field, next_stan, frame}
use microfinance_microservic.Switch.Correlation.{
  text_eq, Manager, Call, waiting, returned, send, wait, handle_incoming, find_pending, with_client,
  registered, response_of,
}
use microfinance_microservic.Switch.Host.{
  mti_request, mti_response, response_message, is_silent, with_echo, approval_code,
}
use microfinance_microservic.Switch.Reversal.{
  IsNumeral, Framed, parsed_size, write_fits, sent_by, send_message-frame, next_stan-IsNumeral,
  next_stan-connected,
}
use microfinance_microservic.Switch.Lookup.{
  text_eq_refl, get_field-put_field, get_field-in_order, get_field-FitsField,
}

-- The fields of an approval.
abbrev pub approval : Text → Option Text → Fields
approval stan reference =
    with_echo reference ((11, stan) ∷ (39, 48 ∷ 48 ∷ []) ∷ (38, approval_code) ∷ [])

-- The retrieval reference that an approval echoes can be held.
abbrev FitsReference : Option Text → Type 0
FitsReference none = Unit
FitsReference (some value) = FitsField (37, value)

approval_fits :
    (stan : Text) (reference : Option Text)
    → IsNumeral 6 stan
    → FitsReference reference
    → All FitsField (approval stan reference)
unfolding field_spec find_spec field_specs rstrip
approval_fits stan none hs hr =
    (hs, ((omega arith, omega arith, refl), ((omega arith, omega arith, refl), tt)))
approval_fits stan (some value) hs hr =
    (hs, ((omega arith, omega arith, refl), ((omega arith, omega arith, refl), (hr, tt))))

approval-Distinct :
    (stan : Text) (reference : Option Text) → Distinct (numbers (approval stan reference))
approval-Distinct stan none = (refl, (refl, (refl, tt)))
approval-Distinct stan (some value) = (refl, (refl, (refl, (refl, tt))))

approval_size :
    (stan : Text) (reference : Option Text) (raw : Bytes) (n : ℕ)
    → decode_fields (numbers (in_order (approval stan reference))) raw
      ≡ some (in_order (approval stan reference), n)
    → n ≤ 23
unfolding in_order insert decode_fields field_spec find_spec field_specs decode_field decode_as
    decode_body
approval_size stan none raw n h = omega (arith, ap parsed_size h)
approval_size stan (some value) raw n h = omega (arith, ap parsed_size h)

-- An approval always goes onto the wire.
approval_frame :
    (stan : Text) (reference : Option Text)
    → IsNumeral 6 stan
    → FitsReference reference
    → (raw : Bytes) × Framed mti_response (approval stan reference) raw
approval_frame stan reference hs hr =
    let (message, made, parsed, body, wrote, read, most) =
      message_lem mti_response (approval stan reference) [] (omega arith) refl
        (approval_fits stan reference hs hr) (approval-Distinct stan reference) in
    let size : length body ≤ 23 = approval_size stan reference (body ++ []) (length body) read in
    let (raw, framed) = write_fits message (omega (arith, most, size)) in
    (raw, (message, made, framed, rw (append-nil message) at parsed))

-- The message that a frame of these fields is parsed into.
abbrev pub message_of : Text → Fields → Message
message_of mti fields = record { mti = mti; fields = in_order fields }

reference_fits :
    (fields : Fields) (o : Option Text)
    → All FitsField fields
    → get_field 37 fields ≡ o
    → FitsReference o
reference_fits fields none h e = tt
reference_fits fields (some value) h e = get_field-FitsField 37 value fields h e

-- The host approves a financial request that carries a STAN.
pub response_message-request :
    (stan : Text) (fields : Fields)
    → Distinct (numbers fields)
    → get_field 11 fields ≡ some stan
    → is_silent (get_field 48 fields) ≡ false
    → response_message (message_of mti_request fields)
      ≡ some (mti_response, approval stan (get_field 37 fields))
unfolding response_message text_eq
response_message-request stan fields distinct numbered speaks =
    rw
      (
        get_field-in_order 11 fields distinct,
        numbered,
        get_field-in_order 48 fields distinct,
        speaks,
        get_field-in_order 37 fields distinct,
      )
      refl

-- A call that has just been registered finds its entry.
abbrev pub Waits : Call → Manager → Type 0
Waits call m = find_pending call.stan m.pending ≡ some call.request

pub wait-handle_incoming :
    (call : Call) (m : Manager) (reply : Message)
    → Waits call m
    → get_field 11 reply.fields ≡ some call.stan
    → (wait call (handle_incoming reply m)).0 ≡ returned reply
unfolding wait handle_incoming response_of
wait-handle_incoming call m reply waits carries =
    rw (carries, waits, (nat_eq_iff call.request call.request).1 refl) refl

pub approval-stan :
    (stan : Text) (reference : Option Text)
    → get_field 11 (in_order (approval stan reference)) ≡ some stan
unfolding get_field in_order insert
approval-stan stan none = refl
approval-stan stan (some value) = refl

approval-code :
    (stan : Text) (reference : Option Text)
    → get_field 39 (in_order (approval stan reference)) ≡ some (48 ∷ 48 ∷ [])
unfolding get_field in_order insert
approval-code stan none = refl
approval-code stan (some value) = refl

pub request-Framed :
    (fields : Fields) (raw : Bytes)
    → All FitsField fields
    → Distinct (numbers fields)
    → frame mti_request fields ≡ some raw
    → Framed mti_request fields raw
unfolding frame
request-Framed fields raw fits distinct framed =
    let (message, made, parsed, body, wrote, read, most) =
      message_lem mti_request fields [] (omega arith) refl fits distinct in
    (message, made, rw made at framed, rw (append-nil message) at parsed)

-- The request as it is sent: with the client's next STAN.
abbrev pub outgoing : Fields → Manager → Fields
outgoing fields m = put_field 11 (next_stan m.client).0 fields

abbrev pub call_of : Manager → Call
call_of m = record { request = m.requests; mti = mti_request; stan = (next_stan m.client).0 }

abbrev pub after_send : Bytes → Manager → Manager
after_send raw m =
    with_client (sent_by raw (next_stan m.client).1)
      (registered (next_stan m.client).0 (next_stan m.client).1 m)

pub send_lem :
    (fields : Fields) (m : Manager) (raw : Bytes)
    → m.client.connected ≡ true
    → frame mti_request (outgoing fields m) ≡ some raw
    → send mti_request fields m ≡ (waiting (call_of m), after_send raw m)
unfolding send
send_lem fields m raw up framed =
    rw
      (send_message-frame mti_request (outgoing fields m) raw (next_stan m.client).1
        (next_stan-connected m.client ∙ up) framed)
      refl

pub after_send-Waits : (raw : Bytes) (m : Manager) → Waits (call_of m) (after_send raw m)
unfolding find_pending
after_send-Waits raw m = rw (text_eq_refl (next_stan m.client).0) refl

-- The approval that the host builds for the request, as the client parses it.
abbrev pub approved : Fields → Manager → Message
approved fields m =
    message_of mti_response (approval (next_stan m.client).0 (get_field 37 (outgoing fields m)))

-- A financial request of fields that can be held, on a connection that is up, goes onto the wire as
-- one message; the host, where field 48 does not silence it, approves what it parses of it; the
-- approval can be framed; and the call that waits returns it as the host built it, approved by its
-- field 39.
pub send-approved :
    (fields : Fields) (m : Manager) (raw : Bytes)
    → m.client.connected ≡ true
    → All FitsField (outgoing fields m)
    → Distinct (numbers (outgoing fields m))
    → frame mti_request (outgoing fields m) ≡ some raw
    → is_silent (get_field 48 (outgoing fields m)) ≡ false
    → (after : Manager) × (send mti_request fields m ≡ (waiting (call_of m), after))
      × (after.client.sent ≡ (next_stan m.client).1.sent ++ raw ∷ [])
      × Framed mti_request (outgoing fields m) raw
      × (reply : Bytes) × (response_message (message_of mti_request (outgoing fields m))
          ≡ some (mti_response, approval (call_of m).stan (get_field 37 (outgoing fields m))))
      × Framed mti_response (approval (call_of m).stan (get_field 37 (outgoing fields m))) reply
      × ((wait (call_of m) (handle_incoming (approved fields m) after)).0
          ≡ returned (approved fields m))
      × (get_field 39 (approved fields m).fields ≡ some (48 ∷ 48 ∷ []))
send-approved fields m raw up fits distinct framed speaks =
    let stan : Text = (next_stan m.client).0 in
    let out : Fields = outgoing fields m in
    let reference : Option Text = get_field 37 out in
    let (reply, seen) =
      approval_frame stan reference (next_stan-IsNumeral m.client)
        (reference_fits out reference fits refl) in
    (
      after_send raw m,
      send_lem fields m raw up framed,
      refl,
      request-Framed out raw fits distinct framed,
      reply,
      response_message-request stan out distinct (get_field-put_field 11 stan fields) speaks,
      seen,
      wait-handle_incoming (call_of m) (after_send raw m) (approved fields m)
          (after_send-Waits raw m) (approval-stan stan reference),
      approval-code stan reference,
    )
