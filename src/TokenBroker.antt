-- ===== src/TokenBroker.antt =====
-- internal/controlplane/tokenbroker: short-lived, scoped, single-use run tokens.
pub mod Store
pub mod Model
pub mod Broker
pub mod Issue
pub mod Validating
pub mod Later
pub mod History
pub mod Granting
pub mod Scopes
pub mod Memory
mod Tests
