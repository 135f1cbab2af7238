-- ===== src/Linux/Log.antt =====
-- The driver of linux/mmio.c for the block of qemu/mmio.c, which sends each byte without a wait and
-- can have the log removed. `cmdev` is found by its minor number (`Linux.Table`); `none` is the
-- null pointer that no function tests for.
use device_driver_on_so_c.Prelude.{
  ℕ, ◌+◌, false, Option, none, some, List, ◌==◌, if◌then◌else◌, has,
}
use device_driver_on_so_c.Registers.{dr, icr, mis, ldr, int_rx, int_tx}
use device_driver_on_so_c.Linux.Kernel.{
  Outcome, done, oops, ◌>>=◌, IrqReturn, irq_handled, irq_none, Bus,
}
use device_driver_on_so_c.Linux.Table as Devices
use device_driver_on_so_c.Linux.Table.{Table, Hashtable}
use device_driver_on_so_c.Linux.Writing.{write_loop}
use device_driver_on_so_c.Linux.Probe as Life
use device_driver_on_so_c.Linux.Probe.{Answers, Module}

-- What `comento_mmio_ioctl` returns: 0 or -EINVAL.
pub data Answer : Type 0 where
  ok invalid : Answer

-- `COMENTO_IOCTL_REMOVE`, which is `_IO('C', 0)`
abbrev pub ioctl_remove : ℕ
ioctl_remove = 0x4300

-- `comento_mmio_get_device`, with the kernel's hash
abbrev pub get_device : {D : Type 0} → Hashtable → Table D → ℕ → Option D
get_device hash = Devices.get_device hash

-- `comento_mmio_probe` and `comento_mmio_remove`
abbrev pub probe : Hashtable → Answers → ℕ → Module → ℕ × Module
probe hash = Life.probe hash false

abbrev pub remove : Hashtable → ℕ → Module → Outcome Module
remove = Life.remove

module _ (bus : Bus) where
  open bus use {Block, readl, writel}

  -- One round of the inner loop of `comento_mmio_write`.
  unfoldable pub send_byte : Block → ℕ → Block
  send_byte d x = writel d dr x

  -- `comento_mmio_write`: the count written, the new `*ppos` and the device.
  unfoldable pub write : (ℕ → ℕ → List ℕ) → ℕ → Option Block → ℕ → ℕ → Outcome (ℕ × ℕ × Block)
  write copy_in fuel none len ppos = oops
  write copy_in fuel (some d) len ppos =
      write_loop send_byte copy_in fuel d 0 len >>= λ r. done (r.0, ppos + r.0, r.1)

  -- `comento_mmio_ioctl`
  unfoldable pub ioctl : Option Block → ℕ → Outcome (Answer × Option Block)
  ioctl cmdev cmd =
      if cmd == ioctl_remove
      then elim cmdev [ none ↦ oops | some d ↦ done (ok, some (writel d ldr int_rx)) ]
      else done (invalid, cmdev)

  -- `comento_mmio_interrupt`
  unfoldable pub interrupt : Block → IrqReturn × Block
  interrupt d =
      let (cause, d') = readl d mis in
      if has cause int_tx
      then (irq_handled, writel d' icr int_tx)
      else if has cause int_rx
      then (irq_handled, writel d' icr int_rx)
      else (irq_none, d')
