-- ===== src/Reliability.antt =====
-- internal/reliability: failure classes, backoff and breakers for queue jobs, and the stuck detector.
pub mod Failure
pub mod Breaker
pub mod Stuck
mod Examples
