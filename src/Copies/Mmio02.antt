-- ===== src/Copies/Mmio02.antt =====
-- week02/과제02/mmio.c, a copy of qemu/mmio.c
use device_driver_on_so_c.Prelude.{ℕ}
use device_driver_on_so_c.Qemu.Log as Log
use device_driver_on_so_c.Qemu.Log.Posix.{Files}

module _ (files : Files) where
  open files use {Disk}

  abbrev pub MmioComento : Type 0
  MmioComento = Log.MmioComento files

  abbrev pub update : MmioComento → MmioComento
  update = Log.update files

  abbrev pub read : MmioComento → ℕ → ℕ
  read = Log.read files

  abbrev pub log_byte : MmioComento → ℕ → MmioComento
  log_byte = Log.log_byte files

  abbrev pub write : MmioComento → ℕ → ℕ → MmioComento
  write = Log.write files

  abbrev pub init : Disk → MmioComento
  init = Log.init files
