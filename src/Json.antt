-- ===== src/Json.antt =====
-- src/common/json.c.
pub mod Strings
pub mod StringTrip
pub mod StringRoom
pub mod Value
pub mod Parse
pub mod Emit
pub mod Text
pub mod EmitLaws
pub mod Limits
pub mod Rounds
pub mod Containers
pub mod Trip
