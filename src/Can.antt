-- ===== src/Can.antt =====
-- The CAN protocol library: Firmware/Libraries/CANProtocol.
pub mod Batch
pub mod Conserve
pub mod Order
pub mod Transmit
pub mod Mailboxes
pub mod Drain
pub mod Attempts
pub mod Overtake
pub mod Node
pub mod Ring
pub mod Payloads
pub mod Receive
pub mod Service
pub mod Fifo
pub mod Queue
pub mod Run
pub mod Latch
pub mod Heat
pub mod Watch
mod Examples
pub mod NodeExamples
mod TxExamples
