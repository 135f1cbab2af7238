-- ===== src/Qemu.antt =====
-- The hardware side: the devices that QEMU emulates and the board that carries them.
pub mod Fifo
pub mod Mmio
pub mod Log
pub mod Pipe
pub mod Scale
pub mod Board
pub mod Gpio
pub mod Kdy
mod Tests
