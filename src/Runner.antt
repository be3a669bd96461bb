-- ===== src/Runner.antt =====
-- internal/controlplane/runner/manager.go: the runner lifecycle behind run tokens.
pub mod Model
pub mod Requests
pub mod Manager
pub mod Calls
pub mod Tokens
pub mod Spent
pub mod Follows
pub mod Lifecycle
pub mod Tests
