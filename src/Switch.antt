-- ===== src/Switch.antt =====
-- libs/mfcommon/mfcommon/iso8583: the connection to the switch, over TCP.
pub mod Framing
pub mod FramingRoundtrip
pub mod Client
pub mod Correlation
pub mod Host
pub mod Exchange
mod Tables
mod Sound
pub mod Answered
pub mod Reversal
mod Lookup
pub mod Approved
mod Tests
