-- ===== src/Wire.antt =====
-- src/common/wire.c: big-endian primitives, the bounded writer and reader, framing and payloads.
pub mod Buffer
pub mod Frame
pub mod Payload
pub mod Request
pub mod Write
pub mod Read
pub mod Formats
pub mod FrameLaws
pub mod RoundTrip
pub mod RequestTrip
