-- ===== src/Ace.antt =====
-- services/ace-stub: the gateway between SOAP and ISO 8583, and its place between the adapter and the
-- switch.
pub mod Codes
pub mod Mediation
pub mod Endpoint
pub mod Mapping
pub mod Chain
pub mod Amounts
pub mod Sendable
pub mod Told
pub mod Reported
pub mod Switched
pub mod Approval
pub mod Calls
pub mod EndToEnd
mod Tests
