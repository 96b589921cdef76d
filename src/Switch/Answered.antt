-- ===== src/Switch/Answered.antt =====
-- A call of `send_and_wait` is answered by a message with its own STAN.
use microfinance_microservic.Common.{
  ℕ, zero, suc, ◌≡◌, refl, Option, none, some, List, [], ◌∷◌, All,
}
use microfinance_microservic.Iso8583.Message.{Message}
use microfinance_microservic.Switch.Client.{
  Client, get_field, put_field, next_stan, send_message, build_reversal_fields,
}
use microfinance_microservic.Switch.Correlation.{
  response_of, lookup_pending, handle_incoming, Call, send, waited, reversed, wait, mti_reversal,
}
use microfinance_microservic.Switch.Tables.{response_of-All}
use microfinance_microservic.Switch.Exchange.{
  Exchange, Event, start, finish, incoming, connect, disconnect, echo, finished, pick_call,
  finish_picked, cons_call, step, run, fresh,
}
use microfinance_microservic.Switch.Sound.{
  OwnResponse, Known, Answered, IsSound, popped-IsSound, absorbed-IsSound, begun-IsSound,
}

-- A picked call and the others, where each call had it.
abbrev PickAll : (Call → Type 0) → Option (Call × List Call) → Type 0
PickAll P none = Unit
PickAll P (some (call, others)) = P call × All P others

cons_call-PickAll :
    (P : Call → Type 0) (one : Call) (o : Option (Call × List Call))
    → P one
    → PickAll P o
    → PickAll P (cons_call one o)
cons_call-PickAll P one none h hs = tt
cons_call-PickAll P one (some (call, others)) h hs = (hs.0, (h, hs.1))

pick_call-PickAll :
    (P : Call → Type 0) (n : ℕ) (calls : List Call) → All P calls → PickAll P (pick_call n calls)
unfolding pick_call
pick_call-PickAll P n [] h = tt
pick_call-PickAll P zero (one ∷ calls) h = h
pick_call-PickAll P (suc n) (one ∷ calls) h =
    cons_call-PickAll P one (pick_call n calls) h.0 (pick_call-PickAll P n calls h.1)

abbrev with_calls : List Call → Exchange → Exchange
with_calls calls e = record {
  manager = e.manager;
  calls = calls;
  answers = e.answers;
  timeouts = e.timeouts;
}

reversed-IsSound :
    (call : Call) (others : List Call) (e : Exchange) (before : Client) (sent : Option Client)
    → IsSound e
    → All (Known e.manager) others
    → IsSound (finished call others e (reversed call.stan e.manager before sent))
reversed-IsSound call others e before none h rest =
    popped-IsSound call.stan before (with_calls others e) (h.0, h.1, rest, h.3)
reversed-IsSound call others e before (some c) h rest =
    popped-IsSound call.stan c (with_calls others e) (h.0, h.1, rest, h.3)

finished-IsSound :
    (call : Call) (others : List Call) (e : Exchange) (response : Option Message)
    → response_of call.request e.manager.responses ≡ response
    → IsSound e
    → Known e.manager call
    → All (Known e.manager) others
    → IsSound (finished call others e (waited call e.manager response))
finished-IsSound call others e (some message) found h known rest =
    let (entries, replies, calls, answered) =
      popped-IsSound call.stan e.manager.client (with_calls others e) (h.0, h.1, rest, h.3) in
    (
      entries,
      replies,
      calls,
      (
        response_of-All (OwnResponse call) call.request message e.manager.responses known.2 found
            refl,
        answered,
      ),
    )
finished-IsSound call others e none found h known rest =
    reversed-IsSound call others e (next_stan e.manager.client).1
      (send_message mti_reversal
        (build_reversal_fields (next_stan e.manager.client).0 call.mti call.stan)
        (next_stan e.manager.client).1)
      h rest

picked-IsSound :
    (e : Exchange) (picked : Option (Call × List Call))
    → IsSound e
    → PickAll (Known e.manager) picked
    → IsSound (finish_picked e picked)
unfolding wait
picked-IsSound e none h all = h
picked-IsSound e (some (call, others)) h all =
    finished-IsSound call others e (response_of call.request e.manager.responses) refl h all.0 all.1

step-IsSound : (event : Event) (e : Exchange) → IsSound e → IsSound (step event e)
unfolding step send handle_incoming
step-IsSound (start mti fields) e h =
    begun-IsSound mti (next_stan e.manager.client).0 (next_stan e.manager.client).1
      (send_message mti (put_field 11 (next_stan e.manager.client).0 fields)
        (next_stan e.manager.client).1)
      e h
step-IsSound (finish n) e h =
    picked-IsSound e (pick_call n e.calls) h (pick_call-PickAll (Known e.manager) n e.calls h.2)
step-IsSound (incoming message) e h =
    absorbed-IsSound message e (get_field 11 message.fields)
      (lookup_pending (get_field 11 message.fields) e.manager.pending) refl refl h
step-IsSound connect e h = h
step-IsSound disconnect e h = h
step-IsSound echo e h = h

-- Whatever the order in which calls start and end, messages arrive, and the connection drops and is
-- made again: a sound exchange stays one.
pub run-IsSound : (events : List Event) (e : Exchange) → IsSound e → IsSound (run events e)
unfolding run
run-IsSound [] e h = h
run-IsSound (event ∷ events) e h = run-IsSound events (step event e) (step-IsSound event e h)

-- From a manager as it is made, in any order of the events: every response that `send_and_wait` has
-- returned to a call carries the STAN of that call's own request.
pub run_answers : (events : List Event) → All Answered ((run events fresh).answers)
run_answers events = (run-IsSound events fresh (tt, tt, tt, tt)).3
