-- ===== src/Memory.antt =====
-- internal/memory: the screening of a text before a model reads it.
pub mod Screen
