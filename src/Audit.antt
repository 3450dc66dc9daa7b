-- ===== src/Audit.antt =====
-- internal/audit: the chain of receipts over a session's events, and its verification.
pub mod Chain
pub mod Verify
mod Examples
