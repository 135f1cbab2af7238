-- ===== src/Linux/Dma/Logging.antt =====
-- The driver of week03/과제03/mmio-driver.c for the block that logs: it sends by DMA as the driver of
-- week03/mmio-driver.c does, and can have the log removed. Its probe is `Life.logging_probe`. Its read
-- and its receive work are commented out.
use device_driver_on_so_c.Prelude.{ℕ, Bool, List, Option, if◌then◌else◌, has}
use device_driver_on_so_c.Registers.{icr, mis, int_tx}
use device_driver_on_so_c.Linux.Kernel.{Outcome, IrqReturn, irq_handled, irq_none, Bus}
use device_driver_on_so_c.Linux.Table as Devices
use device_driver_on_so_c.Linux.Table.{Table, Hashtable}
use device_driver_on_so_c.Linux.Probe as Probe
use device_driver_on_so_c.Linux.Log as Log
use device_driver_on_so_c.Linux.Dma.Channels as Channels
use device_driver_on_so_c.Linux.Dma.Channels.{Setup}
use device_driver_on_so_c.Linux.Dma.Life as Life
use device_driver_on_so_c.Linux.Dma.Bare as Bare
use device_driver_on_so_c.Linux.Dma.Bare.{Cmdev}

-- The functions that are those of week03/mmio-driver.c
abbrev pub get_device : Hashtable → Table Cmdev → ℕ → Option Cmdev
get_device hash = Devices.get_device hash

abbrev pub tx_callback : Cmdev → Cmdev
tx_callback = Bare.tx_callback

abbrev pub rx_callback : Cmdev → Cmdev
rx_callback = Bare.rx_callback

abbrev pub rx_dma_work : Cmdev → ℕ → Cmdev
rx_dma_work = Bare.rx_dma_work

abbrev pub write :
    (ℕ → ℕ → List ℕ)
    → (Cmdev → Cmdev)
    → (ℕ → Bool)
    → (ℕ → Bool)
    → ℕ
    → Option Cmdev
    → ℕ
    → ℕ
    → Outcome (ℕ × ℕ × Option Cmdev)
write = Bare.write

abbrev pub dma_init : Probe.Answer → Bool → Setup → (ℕ → Bool) → ℕ × Setup × (ℕ → Bool)
dma_init = Channels.dma_init

abbrev pub dma_probe :
    Probe.Answer → Probe.Answer → Bool → Channels.Channels → Outcome (ℕ × Channels.Channels)
dma_probe = Channels.dma_probe

abbrev pub remove : Hashtable → ℕ → Life.State → Outcome Life.State
remove = Life.remove

module _ (bus : Bus) where
  open bus use {Block, readl, writel}

  -- `comento_mmio_interrupt`; what follows its `return IRQ_NONE` is never reached.
  unfoldable pub interrupt : Block → IrqReturn × Block
  interrupt d =
      let (cause, d') = readl d mis in
      if has cause int_tx then (irq_handled, writel d' icr int_tx) else (irq_none, d')

  -- `comento_mmio_ioctl`, which is that of linux/mmio.c
  abbrev pub ioctl : Option Block → ℕ → Outcome (Log.Answer × Option Block)
  ioctl = Log.ioctl bus
