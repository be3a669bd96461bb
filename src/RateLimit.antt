-- ===== src/RateLimit.antt =====
-- internal/shared/ratelimit: limits on the concurrency and the rate of agent runs.
pub mod Limiter
pub mod Window
pub mod Counting
pub mod Tests
