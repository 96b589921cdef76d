-- ===== src/Switch/Exchange.antt =====
-- The calls of `send_and_wait` of libs/mfcommon/mfcommon/iso8583/correlation.py that share a
-- `CorrelationManager`: an order of events is any interleaving of their steps with the messages
-- that arrive and the messages that the client sends of itself.
use microfinance_microservic.Common.{
  ℕ, zero, suc, Bool, true, false, Option, none, some, List, [], ◌∷◌,
}
use microfinance_microservic.Iso8583.Bcd.{Text}
use microfinance_microservic.Iso8583.Message.{Message}
use microfinance_microservic.Switch.Client.{Fields, Client, sign_on, heartbeat}
use microfinance_microservic.Switch.Correlation.{
  Manager, handle_incoming, Call, Outcome, waiting, returned, timed_out, raised, send, wait,
  with_client,
}

pub record Exchange : Type 0 where
  pub manager : Manager
  pub calls : List Call
  pub answers : List (Call × Message)
  pub timeouts : List Call

pub data Event : Type 0 where
  -- A call of `send_and_wait` starts
  start : Text → Fields → Event
  -- The wait of the n-th of the calls ends
  finish : ℕ → Event
  incoming : Message → Event
  -- The connection is made, with its sign-on; it drops; the heartbeat is due
  connect : Event
  disconnect : Event
  echo : Event

abbrev pub started : Exchange → Outcome × Manager → Exchange
started e (waiting call, m) = record {
  manager = m;
  calls = call ∷ e.calls;
  answers = e.answers;
  timeouts = e.timeouts;
}
started e (returned message, m) = record {
  manager = m;
  calls = e.calls;
  answers = e.answers;
  timeouts = e.timeouts;
}
started e (timed_out, m) = record {
  manager = m;
  calls = e.calls;
  answers = e.answers;
  timeouts = e.timeouts;
}
started e (raised, m) = record {
  manager = m;
  calls = e.calls;
  answers = e.answers;
  timeouts = e.timeouts;
}

abbrev pub finished : Call → List Call → Exchange → Outcome × Manager → Exchange
finished call others e (waiting again, m) = record {
  manager = m;
  calls = again ∷ others;
  answers = e.answers;
  timeouts = e.timeouts;
}
finished call others e (returned message, m) = record {
  manager = m;
  calls = others;
  answers = (call, message) ∷ e.answers;
  timeouts = e.timeouts;
}
finished call others e (timed_out, m) = record {
  manager = m;
  calls = others;
  answers = e.answers;
  timeouts = call ∷ e.timeouts;
}
finished call others e (raised, m) = record {
  manager = m;
  calls = others;
  answers = e.answers;
  timeouts = e.timeouts;
}

abbrev pub cons_call : Call → Option (Call × List Call) → Option (Call × List Call)
cons_call call none = none
cons_call call (some (one, others)) = some (one, call ∷ others)

unfoldable pub pick_call : ℕ → List Call → Option (Call × List Call)
pick_call n [] = none
pick_call zero (call ∷ calls) = some (call, calls)
pick_call (suc n) (call ∷ calls) = cons_call call (pick_call n calls)

abbrev pub finish_picked : Exchange → Option (Call × List Call) → Exchange
finish_picked e none = e
finish_picked e (some (call, others)) = finished call others e (wait call e.manager)

abbrev pub with_manager : Manager → Exchange → Exchange
with_manager m e = record {
  manager = m;
  calls = e.calls;
  answers = e.answers;
  timeouts = e.timeouts;
}

abbrev pub connected_as : Bool → Client → Client
connected_as up c = record { connected = up; stan_counter = c.stan_counter; sent = c.sent }

abbrev pub spoke : Client → Option Client → Client
spoke c none = c
spoke c (some after) = after

unfoldable pub step : Event → Exchange → Exchange
unfolding send wait handle_incoming sign_on heartbeat pick_call
step (start mti fields) e = started e (send mti fields e.manager)
step (finish n) e = finish_picked e (pick_call n e.calls)
step (incoming message) e = with_manager (handle_incoming message e.manager) e
step connect e =
    let up : Client = connected_as true e.manager.client in
    with_manager (with_client (spoke up (sign_on up)) e.manager) e
step disconnect e = with_manager (with_client (connected_as false e.manager.client) e.manager) e
step echo e =
    with_manager (with_client (spoke e.manager.client (heartbeat e.manager.client)) e.manager) e

unfoldable pub run : List Event → Exchange → Exchange
unfolding step
run [] e = e
run (event ∷ events) e = run events (step event e)

-- A `CorrelationManager` as it is made
abbrev pub fresh : Exchange
fresh = record {
  manager = record {
    client = record { connected = false; stan_counter = 0; sent = [] };
    pending = [];
    requests = 0;
    responses = [];
    downstream = [];
  };
  calls = [];
  answers = [];
  timeouts = [];
}
