-- ===== src/Permissions.antt =====
-- internal/permissions: the ten-layer permission chain, its layers, and the safety classifier.
pub mod Types
pub mod Glob
pub mod DenyRules
pub mod Autonomy
pub mod RuleOfTwo
pub mod Safety
pub mod Chain
mod Examples
