-- ===== src/Audit.antt =====
-- internal/controlplane/audit: the audit log and its chain of signed entries.
pub mod Event
pub mod Store
pub mod ReadBack
pub mod Linked
pub mod Chained
pub mod Purged
pub mod Tests
