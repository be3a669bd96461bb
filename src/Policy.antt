-- ===== src/Policy.antt =====
-- internal/controlplane/core/approvalpolicy: what the control plane makes of a command before a
-- probe sees it, and what it does with a decision.
pub mod Commands
pub mod Classifier
pub mod Profile
pub mod Lane
pub mod Gating
pub mod Capacity
pub mod Decision
pub mod Evaluate
pub mod Outcome
pub mod Demands
pub mod Verdict
pub mod Service
pub mod Submitting
pub mod Dispatch
pub mod Dispatching
pub mod Once
pub mod Tests
pub mod ServiceTests
