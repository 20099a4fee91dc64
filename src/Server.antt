-- ===== src/Server.antt =====
-- src/core/server.c: the parts without sockets.
pub mod Inflight
pub mod InflightLaws
pub mod Stale
pub mod Url
pub mod Query
pub mod UrlLaws
pub mod Pipe
pub mod Reserve
pub mod PipeLaws
pub mod Queue
pub mod Relay
pub mod RelayLaws
pub mod Ended
pub mod Working
pub mod Streamed
pub mod Written
pub mod Delivered
