-- ===== src/Pdu.antt =====
-- The PDU monitoring node: Firmware/Libraries/PowerMonitor.
pub mod Latch
pub mod Rail
pub mod RailLaws
pub mod Thermal
pub mod Schedule
pub mod Cal
pub mod CalLog
mod Examples
mod CalExamples
