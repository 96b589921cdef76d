-- ===== src/Soap.antt =====
-- libs/mfcommon/mfcommon/soap: envelopes of SOAP, and the client that sends them.
pub mod Tree
pub mod Envelope
pub mod Client
pub mod Fields
pub mod Headers
pub mod Roundtrip
pub mod Memory
mod Tests
