-- ===== src/Iso8583/Files.antt =====
-- libs/mfcommon/mfcommon/iso8583/parser.py: `iter_messages_from_file` and `write_messages_to_file`. A
-- file is its bytes; what raises ends the loop, with what was written or yielded before.
use microfinance_microservic.Common.{
  ℕ, zero, suc, Bool, true, false, Option, none, some, List, [], ◌∷◌, ◌++◌, length, nat_eq, take,
  drop, if◌then◌else◌,
}
use microfinance_microservic.Iso8583.Bcd.{Bytes, Text}
use microfinance_microservic.Iso8583.Message.{Message, build_message, parse_message}
use microfinance_microservic.Switch.Framing.{from_bytes, to_bytes}

-- How a loop ends
pub data Ending : Type 0 where
  finished raised out_of_fuel : Ending

abbrev with_header : Option Bytes → Bytes → Bytes × Ending → Bytes × Ending
with_header none raw later = ([], raised)
with_header (some header) raw later = (header ++ (raw ++ later.0), later.1)

-- The writes of one message, if it is built, and what follows it
abbrev pub write_built : Bool → ℕ → Option Bytes → Bytes × Ending → Bytes × Ending
write_built length_prefixed prefix_bytes none later = ([], raised)
write_built true prefix_bytes (some raw) later =
    with_header (to_bytes prefix_bytes (length raw)) raw later
write_built false prefix_bytes (some raw) later = (raw ++ later.0, later.1)

unfoldable pub write_messages_to_file : Bool → ℕ → List (Text × List (ℕ × Text)) → Bytes × Ending
unfolding build_message to_bytes
write_messages_to_file length_prefixed prefix_bytes [] = ([], finished)
write_messages_to_file length_prefixed prefix_bytes ((mti, fields) ∷ messages) =
    write_built length_prefixed prefix_bytes (build_message mti fields)
      (write_messages_to_file length_prefixed prefix_bytes messages)

-- What is yielded, and after it the rest of the loop
abbrev pub yield_parsed : Option (Message × ℕ) → List Message × Ending → List Message × Ending
yield_parsed none later = ([], raised)
yield_parsed (some (parsed, consumed)) later = (parsed ∷ later.0, later.1)

-- `data[:msg_len]` and what comes after it, of the bytes behind a length
abbrev pub next_message : (Bytes → List Message × Ending) → ℕ → Bytes → List Message × Ending
next_message loop msg_len bytes =
    yield_parsed (parse_message (take msg_len bytes)) (loop (drop msg_len bytes))

-- The loop, by fuel, on the bytes from `pos`
unfoldable pub iter_loop : ℕ → ℕ → Bytes → List Message × Ending
unfolding from_bytes
iter_loop zero prefix_bytes bytes =
    if nat_eq (length bytes) 0 then ([], finished) else ([], out_of_fuel)
iter_loop (suc fuel) prefix_bytes bytes =
    let more =
      next_message (iter_loop fuel prefix_bytes) (from_bytes (take prefix_bytes bytes))
        (drop prefix_bytes bytes) in
    if nat_eq (length bytes) 0 then ([], finished) else more

unfoldable pub iter_messages_from_file : Bool → ℕ → Bytes → List Message × Ending
unfolding parse_message iter_loop
iter_messages_from_file true prefix_bytes bytes = iter_loop (length bytes) prefix_bytes bytes
iter_messages_from_file false prefix_bytes bytes = yield_parsed (parse_message bytes) ([], finished)
