-- ===== src/Switch/Tests.antt =====
-- Runs of the connection to the switch, and instances of its theorems.
use microfinance_microservic.Common.{
  ℕ, zero, suc, ◌+◌, ◌<◌, ◌≤◌, ◌≡◌, refl, true, none, some, List, [], ◌∷◌, ◌++◌, length, ◌⊎◌, arith,
  All,
}
use microfinance_microservic.Iso8583.Bcd.{Bytes, Text, bcd_encode, fromhex, hex_value}
use microfinance_microservic.Iso8583.Bitmap.{build_bitmap, any_above, set_bits, set_bit, or_byte}
use microfinance_microservic.Iso8583.Catalog.{field_spec, find_spec, field_specs}
use microfinance_microservic.Iso8583.Fields.{encode_fields, encode_field, encode_as}
use microfinance_microservic.Iso8583.Message.{Message, in_order, insert, build_message}
use microfinance_microservic.Switch.Framing.{
  Socket, received, closed, read_exact, read_framed_message, write_framed_message, to_bytes,
}
use microfinance_microservic.Switch.FramingRoundtrip.{
  read_exact_total, read_framed_message-write_framed_message,
}
use microfinance_microservic.Switch.Client.{
  Fields, frame, get_field, put_field, next_stan, build_reversal_fields,
}
use microfinance_microservic.Switch.Correlation.{
  Manager, Call, waiting, returned, timed_out, send, wait, handle_incoming, find_pending,
  response_of, popped, mti_reversal,
}
use microfinance_microservic.Switch.Exchange.{Event, start, finish, incoming, connect, run, fresh}
use microfinance_microservic.Switch.Answered.{run_answers}
use microfinance_microservic.Switch.Sound.{Answered}
use microfinance_microservic.Switch.Reversal.{Framed, sent_by, wait_lem}
use microfinance_microservic.Switch.Host.{mti_request, mti_response, response_message, is_silent}
use microfinance_microservic.Switch.Approved.{
  outgoing, call_of, approved, message_of, approval, send-approved,
}

-- A socket that delivers two bytes at a time.
abbrev pair_chunk : ℕ → Bytes → Bytes × Bytes
pair_chunk zero s = ([], s)
pair_chunk (suc n) [] = ([], [])
pair_chunk (suc n) (a ∷ []) = (a ∷ [], [])
pair_chunk (suc zero) (a ∷ b ∷ s) = (a ∷ [], b ∷ s)
pair_chunk (suc (suc n)) (a ∷ b ∷ s) = (a ∷ b ∷ [], s)

pairs_next : (n : ℕ) (s : Bytes) → (pair_chunk n s).0 ++ (pair_chunk n s).1 ≡ s
pairs_next zero s = refl
pairs_next (suc n) [] = refl
pairs_next (suc n) (a ∷ []) = refl
pairs_next (suc zero) (a ∷ b ∷ s) = refl
pairs_next (suc (suc n)) (a ∷ b ∷ s) = refl

pairs_most : (n : ℕ) (s : Bytes) → length (pair_chunk n s).0 ≤ n
pairs_most zero s = omega arith
pairs_most (suc n) [] = omega arith
pairs_most (suc n) (a ∷ []) = omega arith
pairs_most (suc zero) (a ∷ b ∷ s) = omega arith
pairs_most (suc (suc n)) (a ∷ b ∷ s) = omega arith

pairs_some : (n : ℕ) (s : Bytes) → 1 ≤ n → 1 ≤ length s → 1 ≤ length (pair_chunk n s).0
pairs_some zero s h e = absurd (omega arith)
pairs_some (suc n) [] h e = absurd (omega arith)
pairs_some (suc n) (a ∷ []) h e = omega arith
pairs_some (suc zero) (a ∷ b ∷ s) h e = omega arith
pairs_some (suc (suc n)) (a ∷ b ∷ s) h e = omega arith

abbrev pairs : Socket Bytes
pairs = record {
  recv = pair_chunk;
  coming = λ s. s;
  recv_next = pairs_next;
  recv_most = pairs_most;
  recv_some = pairs_some;
}

abbrev five : Bytes
five = 0 ∷ 3 ∷ 7 ∷ 8 ∷ 9 ∷ []

read_exact_total_example :
    ((s' : Bytes) × (3 ≤ 5)
      × (read_exact pairs 3 five ≡ received (0 ∷ 3 ∷ 7 ∷ []) s')
      × (s' ≡ 8 ∷ 9 ∷ []))
    ⊎ ((5 < 3) × (read_exact pairs 3 five ≡ closed))
read_exact_total_example = read_exact_total pairs 3 five

written : write_framed_message 2 (7 ∷ 8 ∷ 9 ∷ []) ≡ some five
unfolding write_framed_message to_bytes
written = refl

read_framed_message-write_framed_message_example :
    (s' : Bytes) × (read_framed_message pairs 2 (0 ∷ 3 ∷ 7 ∷ 8 ∷ 9 ∷ 255 ∷ [])
      ≡ received (7 ∷ 8 ∷ 9 ∷ []) s')
    × (s' ≡ 255 ∷ [])
read_framed_message-write_framed_message_example =
    read_framed_message-write_framed_message pairs 2 (7 ∷ 8 ∷ 9 ∷ []) five (255 ∷ [])
      (0 ∷ 3 ∷ 7 ∷ 8 ∷ 9 ∷ 255 ∷ []) written refl

-- Two requests, whose answers come in the other order.
abbrev stan_of : ℕ → Text
stan_of n = 48 ∷ 48 ∷ 48 ∷ 48 ∷ 48 ∷ (48 + n) ∷ []

abbrev amount : Fields
amount = (3, 48 ∷ 48 ∷ 48 ∷ 48 ∷ 48 ∷ 48 ∷ []) ∷ []

abbrev reply : ℕ → Message
reply n = record { mti = mti_response; fields = (11, stan_of n) ∷ (39, 48 ∷ 48 ∷ []) ∷ [] }

abbrev events : List Event
events =
    connect
    ∷ start mti_request amount
    ∷ start mti_request amount
    ∷ incoming (reply 3)
    ∷ incoming (reply 2)
    ∷ finish 1
    ∷ finish 0
    ∷ []

run_answers_example : All Answered ((run events fresh).answers)
run_answers_example = run_answers events

abbrev manager : Manager
manager = record {
  client = record { connected = true; stan_counter = 999999; sent = [] };
  pending = [];
  requests = 4;
  responses = [];
  downstream = [];
}

abbrev call : Call
call = record { request = 3; mti = mti_request; stan = stan_of 7 }

wait_lem_example :
    (find_pending (stan_of 7) (wait call manager).1.pending ≡ none)
    × (((message : Message) × (response_of 3 [] ≡ some message)
          × (wait call manager ≡ (returned message, popped (stan_of 7) manager.client manager)))
        ⊎ ((response_of 3 [] ≡ none)
            × (raw : Bytes) × Framed mti_reversal
                (build_reversal_fields (next_stan manager.client).0 mti_request (stan_of 7))
                raw
            × (wait call manager ≡ (
              timed_out,
              popped (stan_of 7) (sent_by raw (next_stan manager.client).1) manager,
            ))))
wait_lem_example = wait_lem call manager refl (omega arith, refl) (omega arith, refl)

abbrev zeros : Text
zeros = 48 ∷ 48 ∷ 48 ∷ 48 ∷ 48 ∷ 48 ∷ []

abbrev request_raw : Bytes
request_raw = 0 ∷ 16 ∷ 2 ∷ 0 ∷ 32 ∷ 32 ∷ 0 ∷ 0 ∷ 0 ∷ 0 ∷ 0 ∷ 0 ∷ 0 ∷ 0 ∷ 0 ∷ 0 ∷ 0 ∷ 0 ∷ []

framed : frame mti_request ((3, zeros) ∷ (11, zeros) ∷ []) ≡ some request_raw
unfolding frame build_message bcd_encode fromhex hex_value build_bitmap any_above set_bits set_bit
    or_byte in_order insert encode_fields field_spec find_spec field_specs encode_field encode_as
    write_framed_message to_bytes
framed = refl

send-approved_example :
    (after : Manager) × (send mti_request amount manager ≡ (waiting (call_of manager), after))
    × (after.client.sent ≡ (next_stan manager.client).1.sent ++ request_raw ∷ [])
    × Framed mti_request (outgoing amount manager) request_raw
    × (reply : Bytes) × (response_message (message_of mti_request (outgoing amount manager))
        ≡ some (
          mti_response,
          approval (call_of manager).stan (get_field 37 (outgoing amount manager)),
        ))
    × Framed mti_response
        (approval (call_of manager).stan (get_field 37 (outgoing amount manager)))
        reply
    × ((wait (call_of manager) (handle_incoming (approved amount manager) after)).0
        ≡ returned (approved amount manager))
    × (get_field 39 (approved amount manager).fields ≡ some (48 ∷ 48 ∷ []))
unfolding put_field next_stan get_field is_silent field_spec find_spec field_specs
send-approved_example =
    send-approved amount manager request_raw refl ((omega arith, refl), ((omega arith, refl), tt))
      (refl, (refl, tt)) framed refl
