-- ===== src/Switch/Correlation.antt =====
-- libs/mfcommon/mfcommon/iso8583/correlation.py: `CorrelationManager`. A call of `send_and_wait`
-- is two steps, up to its wait and from it, between which other calls and incoming messages run; a
-- `PendingRequest` is a number, and its `response` an entry of a table.
use microfinance_microservic.Common.{
  ℕ, suc, Bool, true, ◌&&◌, false, Option, none, some, List, [], ◌∷◌, ◌++◌, nat_eq, if◌then◌else◌,
}
use microfinance_microservic.Iso8583.Bcd.{Text}
use microfinance_microservic.Iso8583.Message.{Message}
use microfinance_microservic.Switch.Client.{
  Fields, get_field, put_field, Client, next_stan, send_message, build_reversal_fields,
}

unfoldable pub text_eq : Text → Text → Bool
text_eq [] [] = true
text_eq [] (d ∷ t) = false
text_eq (c ∷ s) [] = false
text_eq (c ∷ s) (d ∷ t) = nat_eq c d && text_eq s t

pub record Manager : Type 0 where
  pub client : Client
  -- STAN to `PendingRequest`
  pub pending : List (Text × ℕ)
  pub requests : ℕ
  pub responses : List (ℕ × Message)
  -- What went on to the callback that was there before
  pub downstream : List Message

unfoldable pub find_pending : Text → List (Text × ℕ) → Option ℕ
unfolding text_eq
find_pending stan [] = none
find_pending stan ((key, request) ∷ pending) =
    let later = find_pending stan pending in if text_eq key stan then some request else later

-- `self._pending.pop(stan, None)`
unfoldable pub pop_pending : Text → List (Text × ℕ) → List (Text × ℕ)
unfolding text_eq
pop_pending stan [] = []
pop_pending stan ((key, request) ∷ pending) =
    let later = pop_pending stan pending in
    if text_eq key stan then later else (key, request) ∷ later

unfoldable pub response_of : ℕ → List (ℕ × Message) → Option Message
response_of request [] = none
response_of request ((other, message) ∷ responses) =
    let later = response_of request responses in
    if nat_eq other request then some message else later

abbrev pub absorbed : Message → Manager → Option ℕ → Manager
absorbed parsed m none = record {
  client = m.client;
  pending = m.pending;
  requests = m.requests;
  responses = m.responses;
  downstream = m.downstream ++ parsed ∷ [];
}
absorbed parsed m (some request) = record {
  client = m.client;
  pending = m.pending;
  requests = m.requests;
  responses = (request, parsed) ∷ m.responses;
  downstream = m.downstream;
}

abbrev pub lookup_pending : Option Text → List (Text × ℕ) → Option ℕ
lookup_pending none pending = none
lookup_pending (some stan) pending = find_pending stan pending

unfoldable pub handle_incoming : Message → Manager → Manager
unfolding find_pending get_field
handle_incoming parsed m = absorbed parsed m (lookup_pending (get_field 11 parsed.fields) m.pending)

-- A call that waits: its `PendingRequest`, its MTI and its STAN
pub record Call : Type 0 where
  pub request : ℕ
  pub mti : Text
  pub stan : Text

-- How `send_and_wait` stands: it waits, it has returned, or it has raised `TransactionTimeout`, or
-- what `send_message` raises
pub data Outcome : Type 0 where
  waiting : Call → Outcome
  returned : Message → Outcome
  timed_out : Outcome
  raised : Outcome

-- The `finally` clause
abbrev pub popped : Text → Client → Manager → Manager
popped stan c m = record {
  client = c;
  pending = pop_pending stan m.pending;
  requests = m.requests;
  responses = m.responses;
  downstream = m.downstream;
}

abbrev pub registered : Text → Client → Manager → Manager
registered stan c m = record {
  client = c;
  pending = (stan, m.requests) ∷ pop_pending stan m.pending;
  requests = suc m.requests;
  responses = m.responses;
  downstream = m.downstream;
}

abbrev pub with_client : Client → Manager → Manager
with_client c m = record {
  client = c;
  pending = m.pending;
  requests = m.requests;
  responses = m.responses;
  downstream = m.downstream;
}

abbrev pub begun : Text → Text → ℕ → Manager → Option Client → Outcome × Manager
begun mti stan request m none = (raised, popped stan m.client m)
begun mti stan request m (some c) =
    (waiting (record { request = request; mti = mti; stan = stan }), with_client c m)

abbrev pub send_registered : Text → Fields → Text × Client → Manager → Outcome × Manager
send_registered mti fields (stan, c) m =
    begun mti stan m.requests (registered stan c m) (send_message mti (put_field 11 stan fields) c)

-- `send_and_wait` up to its wait
unfoldable pub send : Text → Fields → Manager → Outcome × Manager
unfolding next_stan send_message put_field pop_pending
send mti fields m = send_registered mti fields (next_stan m.client) m

abbrev pub mti_reversal : Text
mti_reversal = 48 ∷ 52 ∷ 48 ∷ 48 ∷ []

abbrev pub reversed : Text → Manager → Client → Option Client → Outcome × Manager
reversed stan m before none = (raised, popped stan before m)
reversed stan m before (some c) = (timed_out, popped stan c m)

-- `_send_reversal`, and the exception or the `finally` clause after it
abbrev pub send_reversal : Text → Text → Manager → Text × Client → Outcome × Manager
send_reversal mti stan m (reversal_stan, c) =
    reversed stan m c (send_message mti_reversal (build_reversal_fields reversal_stan mti stan) c)

abbrev pub waited : Call → Manager → Option Message → Outcome × Manager
waited call m (some message) = (returned message, popped call.stan m.client m)
waited call m none = send_reversal call.mti call.stan m (next_stan m.client)

-- `send_and_wait` from the end of its wait, which a response ends, or the timeout without one
unfoldable pub wait : Call → Manager → Outcome × Manager
unfolding next_stan send_message build_reversal_fields pop_pending response_of
wait call m = waited call m (response_of call.request m.responses)
