-- ===== src/Schema.antt =====
-- src/common/schema.c.
pub mod Check
pub mod Sound
pub mod Depth
