-- ===== src/Switch/Client.antt =====
-- libs/mfcommon/mfcommon/iso8583/client.py: what `ISO8583Client` sends, and its counter of STANs;
-- and the fields of a reversal, of libs/mfcommon/mfcommon/iso8583/reversal.py. The frames that are
-- handed to the socket are kept in order. An audit logger only observes.
use microfinance_microservic.Common.{
  ℕ, ◌+◌, ◌/◌, ◌%◌, Bool, Option, none, some, List, [], ◌∷◌, ◌++◌, nat_eq, if◌then◌else◌, replicate,
}
use microfinance_microservic.Iso8583.Bcd.{Bytes, Text}
use microfinance_microservic.Iso8583.Message.{build_message}
use microfinance_microservic.Switch.Framing.{write_framed_message}

abbrev pub Fields : Type 0
Fields = List (ℕ × Text)

-- `fields.get(de)`
unfoldable pub get_field : ℕ → Fields → Option Text
get_field de [] = none
get_field de ((n, value) ∷ fields) =
    let later = get_field de fields in if nat_eq n de then some value else later

-- `fields[de] = value`
unfoldable pub put_field : ℕ → Text → Fields → Fields
put_field de value [] = (de, value) ∷ []
put_field de value ((n, v) ∷ fields) =
    let later = put_field de value fields in
    if nat_eq n de then (n, value) ∷ fields else (n, v) ∷ later

pub record Client : Type 0 where
  pub connected : Bool
  pub stan_counter : ℕ
  pub sent : List Bytes

-- f"{n:06d}", of a number below a million
abbrev pub six_digits : ℕ → Text
six_digits n =
    (48 + n / 100000 % 10)
    ∷ (48 + n / 10000 % 10)
    ∷ (48 + n / 1000 % 10)
    ∷ (48 + n / 100 % 10)
    ∷ (48 + n / 10 % 10)
    ∷ (48 + n % 10)
    ∷ []

unfoldable pub next_stan : Client → Text × Client
next_stan c =
    let counter : ℕ = (c.stan_counter + 1) % 1000000 in
    (six_digits counter, record { connected = c.connected; stan_counter = counter; sent = c.sent })

abbrev pub framed_raw : Option Bytes → Option Bytes
framed_raw none = none
framed_raw (some raw) = write_framed_message 2 raw

-- A message as it goes onto the socket
unfoldable pub frame : Text → Fields → Option Bytes
unfolding build_message write_framed_message
frame mti fields = framed_raw (build_message mti fields)

abbrev pub with_frame : Option Bytes → Client → Option Client
with_frame none c = none
with_frame (some raw) c =
    some
      (record { connected = c.connected; stan_counter = c.stan_counter; sent = c.sent ++ raw ∷ [] })

-- `send_message`; what it raises, unconnected or of a message that cannot be built, is `none`
unfoldable pub send_message : Text → Fields → Client → Option Client
unfolding frame
send_message mti fields c = if c.connected then with_frame (frame mti fields) c else none

abbrev pub mti_network : Text
mti_network = 48 ∷ 56 ∷ 48 ∷ 48 ∷ []

abbrev network_message : Text → Text × Client → Option Client
network_message code (stan, c) = send_message mti_network ((11, stan) ∷ (70, code) ∷ []) c

unfoldable pub sign_on : Client → Option Client
unfolding next_stan send_message
sign_on c = network_message (48 ∷ 48 ∷ 49 ∷ []) (next_stan c)

unfoldable pub sign_off : Client → Option Client
unfolding next_stan send_message
sign_off c = network_message (48 ∷ 48 ∷ 50 ∷ []) (next_stan c)

-- The echo test of a round of `_heartbeat_loop`
unfoldable pub heartbeat : Client → Option Client
unfolding next_stan send_message
heartbeat c = network_message (51 ∷ 48 ∷ 49 ∷ []) (next_stan c)

unfoldable pub build_original_data_elements : Text → Text → Text
build_original_data_elements original_mti original_stan =
    original_mti ++ (original_stan ++ (replicate 10 48 ++ (replicate 11 48 ++ replicate 11 48)))

unfoldable pub build_reversal_fields : Text → Text → Text → Fields
unfolding build_original_data_elements
build_reversal_fields reversal_stan original_mti original_stan =
    (11, reversal_stan) ∷ (90, build_original_data_elements original_mti original_stan) ∷ []
