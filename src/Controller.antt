-- ===== src/Controller.antt =====
-- src/common/controller_sdk.c: the side of the controllers.
pub mod Output
pub mod Stream
pub mod StreamLaws
pub mod Ending
pub mod Reply
pub mod Run
pub mod Service
pub mod Multipart
pub mod MultipartLaws
pub mod MultipartTrip
