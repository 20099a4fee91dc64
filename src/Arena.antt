-- ===== src/Arena.antt =====
-- src/common/arena.c.
pub mod Blocks
pub mod BlockLaws
