-- ===== src/Executor.antt =====
-- internal/probe/executor: how a probe classifies a command, and which ones it runs.
pub mod Tables
pub mod Classifier
pub mod Spec
pub mod Gate
pub mod Tests
