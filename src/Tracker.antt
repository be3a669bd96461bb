-- ===== src/Tracker.antt =====
-- internal/controlplane/cmdtracker: commands in flight, and the callers that wait for them.
pub mod Model
pub mod Delivery
pub mod Tests
