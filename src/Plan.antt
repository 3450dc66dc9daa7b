-- ===== src/Plan.antt =====
-- internal/plan: the plans as data, their checks, their life cycle and the executor.
pub mod Predicate
pub mod Schema
pub mod Graph
pub mod Shape
pub mod Validate
pub mod Lifecycle
pub mod Replay
pub mod Steps
pub mod Run
pub mod Resume
mod Examples
