-- ===== src/Ws.antt =====
-- src/core/ws.c: the WebSocket frames that the gateway reads from and writes to a client.
pub mod Codec
pub mod Masking
pub mod Laws
