-- ===== src/Gateway.antt =====
-- services/api-gateway/app: the idempotency store in memory (idempotency.py) and the money routes
-- (main.py), with their claim, their call of transaction-service and the release or the stored
-- response. A response body, an amount (a float) and the hash of a body are of any type.
pub mod Store
pub mod Routes
pub mod Once
pub mod Replays
pub mod Register
pub mod AllOrNothing
pub mod Identity
pub mod Owned
mod Tests
mod IdentityTests
mod OwnedTests
