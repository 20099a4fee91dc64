-- ===== src/Middleware.antt =====
-- src/core/middleware.c: what happens to a request before it is dispatched.
pub mod Bucket
pub mod Before
pub mod Headers
pub mod Keeps
pub mod Gate
pub mod Readable
pub mod Refusal
pub mod Decision
pub mod HeaderLaws
