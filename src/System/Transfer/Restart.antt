-- ===== src/System/Transfer/Restart.antt =====
-- A second message of the host in the middle of a transfer: the receive work of week04/mmio.c stops
-- the job in flight and starts another at the beginning of the buffer.
use device_driver_on_so_c.Linux.Dma as Dma
use device_driver_on_so_c.Linux.Dma.{schedule_rx_dma_work}
use device_driver_on_so_c.Linux.Dma.Inv as DmaInv
use device_driver_on_so_c.System.Machine.{Machine}
