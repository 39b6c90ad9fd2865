-- ===== src/Boot.antt =====
-- The bootloader, Firmware/Bootloader/src/main.cpp, and the constants of BootProtocol.h.
pub mod Protocol
pub mod Cmd
pub mod Reply
pub mod Flash
pub mod Image
pub mod Options
pub mod Session
pub mod Handle
pub mod Commit
pub mod Erase
pub mod Blank
pub mod Stream
pub mod Data
pub mod Serial
pub mod Queue
pub mod Startup
pub mod Rules
mod Examples
