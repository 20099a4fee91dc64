-- ===== src/Crypto.antt =====
-- src/common/crypto.c.
pub mod Sha
pub mod ShaLaws
pub mod Base64
pub mod CompareLaws
