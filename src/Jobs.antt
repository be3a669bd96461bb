-- ===== src/Jobs.antt =====
-- internal/controlplane/jobs: the durable record of an asynchronous command.
pub mod State
pub mod Row
pub mod Table
pub mod Drain
pub mod Scheduler
pub mod Counting
pub mod Claiming
pub mod Limits
pub mod InFlight
pub mod Runs
pub mod Depth
pub mod Lifecycle
pub mod Tests
pub mod RunsTests
