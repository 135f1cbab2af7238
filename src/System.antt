-- ===== src/System.antt =====
-- Driver and hardware together.
pub mod Machine
pub mod Transmit
pub mod Receive
pub mod Interrupt
pub mod HostToUser
pub mod Weigh
pub mod Logging
pub mod Removal
pub mod Transfer
pub mod Unanswered
pub mod DmaToLog
pub mod Steps
pub mod Between
mod Tests
