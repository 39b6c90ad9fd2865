-- ===== src/Bridge.antt =====
-- The bridge's host side: Firmware/Libraries/PanelBridge/PanelBridge.cpp.
pub mod Relay
pub mod State
pub mod Rows
pub mod Nodes
pub mod Sync
pub mod Dispatch
pub mod Receive
pub mod Export
pub mod Loop
pub mod Hex
pub mod Heard
pub mod BootLine
pub mod Reports
pub mod Lookup
pub mod First
pub mod Roster
pub mod Heat
pub mod Dead
pub mod Unchanged
pub mod Handlers
pub mod Warning
pub mod RoundTrip
pub mod Stream
pub mod Payload
pub mod Delivery
mod Examples
mod HostExamples
