-- ===== src/Ace/Calls.antt =====
-- What a call of `send_and_wait` comes to: its answer, or a connection that is lost.
use microfinance_microservic.Common.{HasEq-text}
use microfinance_microservic.Common.{◌≡◌, refl, ap, ◌∙◌, true, false, none, some, nat_eq_iff}
use microfinance_microservic.Iso8583.Bcd.{Bytes}
use microfinance_microservic.Iso8583.Message.{Message}
use microfinance_microservic.Soap.Tree.{strip}
use microfinance_microservic.Soap.Roundtrip.{IsTrim}
use microfinance_microservic.Switch.Client.{Client, Fields, next_stan, frame, get_field}
use microfinance_microservic.Switch.Correlation.{
  Manager, popped, Call, waiting, returned, raised, send, wait, response_of, handle_incoming,
}
use microfinance_microservic.Switch.Host.{mti_request}
use microfinance_microservic.Switch.Approved.{outgoing, call_of, after_send, send_lem, Waits}
use microfinance_microservic.Ace.Endpoint.{answered, connection_error}
use microfinance_microservic.Ace.Switched.{send_and_wait, concluded, continued}

wait_received :
    (call : Call) (m : Manager) (reply : Message)
    → Waits call m
    → get_field 11 reply.fields ≡ some call.stan
    → wait call (handle_incoming reply m)
      ≡ (returned reply, popped call.stan m.client (handle_incoming reply m))
unfolding wait handle_incoming response_of
wait_received call m reply waits carries =
    rw (carries, waits, (nat_eq_iff call.request call.request).1 refl) refl

-- A call whose response is what arrives while it waits: it is answered, and nothing more is sent.
pub send_and_wait-received :
    (fields : Fields) (m after : Manager) (call : Call) (reply : Message)
    → send mti_request fields m ≡ (waiting call, after)
    → Waits call after
    → get_field 11 reply.fields ≡ some call.stan
    → send_and_wait (handle_incoming reply) mti_request fields m
      ≡ (answered reply, popped call.stan after.client (handle_incoming reply after))
unfolding send_and_wait
send_and_wait-received fields m after call reply e waits carries =
    ap (continued (handle_incoming reply)) e
    ∙ ap concluded (wait_received call after reply waits carries)

pub lost-IsTrim : IsTrim "No connection to the switch: Not connected to switch"
unfolding strip
lost-IsTrim = (refl, λ e. cc)

-- A wait that ends without a response on a connection that is down: the reversal is not sent.
wait_down :
    (call : Call) (m : Manager)
    → m.client.connected ≡ false
    → response_of call.request m.responses ≡ none
    → wait call m ≡ (raised, popped call.stan (next_stan m.client).1 m)
unfolding wait
wait_down call m down silent = rw (silent, down) refl

concluded_down :
    (call : Call) (m : Manager)
    → m.client.connected ≡ false
    → concluded (raised, popped call.stan (next_stan m.client).1 m)
      ≡ (connection_error "Not connected to switch", popped call.stan (next_stan m.client).1 m)
unfolding next_stan
concluded_down call m down = rw down refl

pub call_lost :
    (meanwhile : Manager → Manager) (fields : Fields) (m : Manager) (raw : Bytes)
    → m.client.connected ≡ true
    → frame mti_request (outgoing fields m) ≡ some raw
    → (meanwhile (after_send raw m)).client.connected ≡ false
    → response_of m.requests (meanwhile (after_send raw m)).responses ≡ none
    → send_and_wait meanwhile mti_request fields m ≡ (
      connection_error "Not connected to switch",
      popped
          (call_of m).stan
          (next_stan (meanwhile (after_send raw m)).client).1
          (meanwhile (after_send raw m)),
    )
unfolding send_and_wait
call_lost meanwhile fields m raw up framed down silent =
    ap (continued meanwhile) (send_lem fields m raw up framed)
    ∙ ap concluded (wait_down (call_of m) (meanwhile (after_send raw m)) down silent)
    ∙ concluded_down (call_of m) (meanwhile (after_send raw m)) down

pub sent-next_stan : (c : Client) → (next_stan c).1.sent ≡ c.sent
unfolding next_stan
sent-next_stan c = refl
