-- ===== src/Upload.antt =====
-- The Gateway's firmware uploader: Firmware/Libraries/SimGateway/Uploader.cpp and UploadProtocol.h.
pub mod Wire
pub mod Records
pub mod Protocol
pub mod Kind
pub mod Nack
pub mod Image
pub mod Session
pub mod Reply
pub mod Tick
pub mod Client
pub mod Lines
pub mod Serial
pub mod Poll
pub mod Events
pub mod Keeps
pub mod Staging
pub mod Flash
pub mod Crc
pub mod Window
pub mod Outcome
pub mod Examples
mod BoardExamples
