-- ===== src/Router.antt =====
-- src/common/router.c: route patterns, the table of routes, and the lookup.
pub mod Segments
pub mod Table
pub mod Pieces
pub mod Lookup
