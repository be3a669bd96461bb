-- ===== src/Approval.antt =====
-- internal/controlplane/approval/queue.go: the risk-gated approval queue.
pub mod Request
pub mod Queue
pub mod Quorum
pub mod History
pub mod Persists
pub mod Finality
pub mod Deciding
pub mod Repeated
pub mod Sort
pub mod Listing
pub mod Workspace
pub mod Risk
mod Tests
