-- ===== src/Linux.antt =====
-- The Linux side: the drivers of the comento blocks. What the kernel and the emulated machine do
-- comes in through the interfaces of `Kernel`.
pub mod Kernel
pub mod Table
pub mod Reading
pub mod Writing
pub mod Pio
pub mod Log
pub mod Probe
pub mod Dma
pub mod Spi
pub mod User
pub mod Lock
mod Tests
