-- ===== src/Session.antt =====
-- src/core/session.c.
pub mod Store
pub mod Cookie
pub mod CookieLaws
pub mod Slots
pub mod StoreLaws
pub mod Reached
pub mod Gets
