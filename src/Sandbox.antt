-- ===== src/Sandbox.antt =====
-- internal/controlplane/sandbox: the states of sandbox sessions and of their tasks.
pub mod Session
pub mod Task
pub mod Tests
