-- ===== src/Jwt.antt =====
-- src/common/jwt.c and the types of include/ntc/jwt.h. A fixed array with its length is the list of
-- the bytes in use; a result false is `none`.
pub mod Token
pub mod Keys
pub mod Verify
pub mod Split
pub mod Accept
pub mod Selected
pub mod Signed
pub mod KeyLaws
