-- ===== src/Ace/Switched.antt =====
-- services/ace-stub over the `CorrelationManager` of libs/mfcommon/mfcommon/iso8583/correlation.py.
-- What other threads do while a call of `send_and_wait` waits is a function on the manager.
use microfinance_microservic.Common.{Bool, if◌then◌else◌}
use microfinance_microservic.Iso8583.Bcd.{Text}
use microfinance_microservic.Switch.Client.{Fields}
use microfinance_microservic.Switch.Correlation.{
  Manager, Outcome, waiting, returned, timed_out, raised, send, wait,
}
use microfinance_microservic.Ace.Endpoint.{Sent, answered, connection_error, failed}

-- What `send_message` raises: a `ConnectionError` where the client is not connected, else the exception of
-- a message that cannot be built
abbrev pub exception : Bool → Sent
exception connected = if connected then failed else connection_error "Not connected to switch"

abbrev pub concluded : Outcome × Manager → Sent × Manager
concluded (returned parsed, m) = (answered parsed, m)
concluded (timed_out, m) = (Sent.timed_out, m)
concluded (raised, m) = (exception m.client.connected, m)
concluded (waiting call, m) = (failed, m)

abbrev pub continued : (Manager → Manager) → Outcome × Manager → Sent × Manager
continued meanwhile (waiting call, m) = concluded (wait call (meanwhile m))
continued meanwhile (returned parsed, m) = concluded (returned parsed, m)
continued meanwhile (timed_out, m) = concluded (timed_out, m)
continued meanwhile (raised, m) = concluded (raised, m)

-- `send_and_wait`
unfoldable pub send_and_wait : (Manager → Manager) → Text → Fields → Manager → Sent × Manager
unfolding send wait
send_and_wait meanwhile mti fields m = continued meanwhile (send mti fields m)
