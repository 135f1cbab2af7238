-- ===== src/Copies/Drivers02.antt =====
-- week02/과제02/mmio-drivers.c, a copy of linux/mmio.c
use device_driver_on_so_c.Prelude.{ℕ, Option, List}
use device_driver_on_so_c.Linux.Kernel.{Outcome, IrqReturn, Bus}
use device_driver_on_so_c.Linux.Table.{Table, Hashtable}
use device_driver_on_so_c.Linux.Probe.{Answers, Module}
use device_driver_on_so_c.Linux.Log as Log

abbrev pub get_device : {D : Type 0} → Hashtable → Table D → ℕ → Option D
get_device = Log.get_device

abbrev pub probe : Hashtable → Answers → ℕ → Module → ℕ × Module
probe = Log.probe

abbrev pub remove : Hashtable → ℕ → Module → Outcome Module
remove = Log.remove

module _ (bus : Bus) where
  open bus use {Block}

  abbrev pub send_byte : Block → ℕ → Block
  send_byte = Log.send_byte bus

  abbrev pub write : (ℕ → ℕ → List ℕ) → ℕ → Option Block → ℕ → ℕ → Outcome (ℕ × ℕ × Block)
  write = Log.write bus

  abbrev pub ioctl : Option Block → ℕ → Outcome (Log.Answer × Option Block)
  ioctl = Log.ioctl bus

  abbrev pub interrupt : Block → IrqReturn × Block
  interrupt = Log.interrupt bus
