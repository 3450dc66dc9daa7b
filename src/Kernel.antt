-- ===== src/Kernel.antt =====
-- kernel: the passes of the turn loop over a session's history.
pub mod Hygiene
mod Examples
