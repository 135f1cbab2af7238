-- ===== src/Qemu/Log/Lines.antt =====
-- The block of week03/과제03/mmio.c: that of qemu/mmio.c with the two busy lines of week03/mmio.c, which
-- it creates and, outside of comments, never sets.
use device_driver_on_so_c.Prelude.{ℕ, Bool, false}
use device_driver_on_so_c.Qemu.Log as Log
use device_driver_on_so_c.Qemu.Log.Posix.{Files}

module _ (files : Files) where
  open files use {Disk}

  pub record MmioComento : Type 0 where
    pub comento : Log.MmioComento files
    pub dma_tx_busy : Bool
    pub dma_rx_busy : Bool

  -- `comento_mmio_read`, which changes nothing
  unfoldable pub read : MmioComento → ℕ → ℕ
  read s offset = Log.read files s.comento offset

  -- `comento_mmio_write`
  unfoldable pub write : MmioComento → ℕ → ℕ → MmioComento
  write s offset value = record s { comento = Log.write files s.comento offset value }

  -- `comento_mmio_init` on a zeroed object, whose lines are low
  unfoldable pub init : Disk → MmioComento
  init disk = record { comento = Log.init files disk; dma_tx_busy = false; dma_rx_busy = false }
