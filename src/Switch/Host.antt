-- ===== src/Switch/Host.antt =====
-- libs/mfcommon/mfcommon/iso8583/host_simulator.py: what `HostSimulator` answers. The field 48 only
-- delays an answer, but for the value that suppresses it.
use microfinance_microservic.Common.{Bool, false, Option, none, some, [], ◌∷◌, ◌++◌, if◌then◌else◌}
use microfinance_microservic.Iso8583.Bcd.{Bytes, Text}
use microfinance_microservic.Iso8583.Message.{Message, build_message}
use microfinance_microservic.Switch.Client.{Fields, get_field, mti_network}
use microfinance_microservic.Switch.Correlation.{text_eq, mti_reversal}

-- "0810", "0200", "0210" and "0410"
abbrev pub mti_network_reply : Text
mti_network_reply = 48 ∷ 56 ∷ 49 ∷ 48 ∷ []

abbrev pub mti_request : Text
mti_request = 48 ∷ 50 ∷ 48 ∷ 48 ∷ []

abbrev pub mti_response : Text
mti_response = 48 ∷ 50 ∷ 49 ∷ 48 ∷ []

abbrev pub mti_reversal_reply : Text
mti_reversal_reply = 48 ∷ 52 ∷ 49 ∷ 48 ∷ []

-- "SIMULATE_TIMEOUT"
abbrev pub simulate_timeout : Text
simulate_timeout =
    83 ∷ 73 ∷ 77 ∷ 85 ∷ 76 ∷ 65 ∷ 84 ∷ 69 ∷ 95 ∷ 84 ∷ 73 ∷ 77 ∷ 69 ∷ 79 ∷ 85 ∷ 84 ∷ []

-- "A18008" and "000000"
abbrev pub approval_code : Text
approval_code = 65 ∷ 49 ∷ 56 ∷ 48 ∷ 48 ∷ 56 ∷ []

abbrev no_stan : Text
no_stan = 48 ∷ 48 ∷ 48 ∷ 48 ∷ 48 ∷ 48 ∷ []

-- `fields.get(de, default)`
abbrev pub or_default : Text → Option Text → Text
or_default other none = other
or_default other (some value) = value

unfoldable pub is_silent : Option Text → Bool
unfolding text_eq
is_silent none = false
is_silent (some value) = text_eq value simulate_timeout

abbrev pub with_echo : Option Text → Fields → Fields
with_echo none fields = fields
with_echo (some value) fields = fields ++ (37, value) ∷ []

-- The type and the fields of an answer; none is silence
unfoldable pub response_message : Message → Option (Text × Fields)
unfolding text_eq get_field is_silent
response_message parsed =
    let stan : Text = or_default no_stan (get_field 11 parsed.fields) in
    if text_eq parsed.mti mti_network
    then some (
      mti_network_reply,
      (11, stan) ∷ (70, or_default (48 ∷ 48 ∷ 49 ∷ []) (get_field 70 parsed.fields)) ∷ [],
    )
    else if text_eq parsed.mti mti_request
    then (if is_silent (get_field 48 parsed.fields)
        then none
        else some (
          mti_response,
          with_echo (get_field 37 parsed.fields)
              ((11, stan) ∷ (39, 48 ∷ 48 ∷ []) ∷ (38, approval_code) ∷ []),
        ))
    else if text_eq parsed.mti mti_reversal
    then some (mti_reversal_reply, (11, stan) ∷ (39, 48 ∷ 48 ∷ []) ∷ [])
    else none

abbrev built : Option (Text × Fields) → Option (Option Bytes)
built none = none
built (some (mti, fields)) = some (build_message mti fields)

-- `_build_response`; the inner `none` is what `build_message` raises
unfoldable pub build_response : Message → Option (Option Bytes)
unfolding response_message build_message
build_response parsed = built (response_message parsed)
