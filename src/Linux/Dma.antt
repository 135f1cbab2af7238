-- ===== src/Linux/Dma.antt =====
-- The driver of week04/mmio.c, which leaves the bytes to the DMA controller and shows its state on
-- three lamps. The controller is the kernel's: whether it takes a job is an argument, and so is what
-- happens while a writer waits.
pub mod Channels
pub mod Inv
pub mod Send
pub mod Race
pub mod Bare
pub mod Life
pub mod Memcpy
pub mod Logging
mod Tests
use device_driver_on_so_c.Prelude.{
  ℕ, zero, suc, ◌+◌, ◌-◌, ◌≡◌, min, Bool, true, false, not, Option, none, some, List, [], ◌∷◌, ◌++◌,
  ◌==◌, ltb, if◌then◌else◌, has, length, take, drop, ◌&&◌,
}
use device_driver_on_so_c.Registers.{icr, mis, int_tx, int_rx, int_rx_empty}
use device_driver_on_so_c.Linux.Kernel.{
  Outcome, done, oops, running, ◌>>=◌, IrqReturn, irq_handled, irq_none, Bus,
}
use device_driver_on_so_c.Linux.Reading as Reading
use device_driver_on_so_c.Linux.Table as Devices
use device_driver_on_so_c.Linux.Table.{Table, Hashtable}

abbrev pub buffer_size : ℕ
buffer_size = 4096

-- `struct comento_dma_buf`. `mapped` tells whether the scatter list is mapped for the controller,
-- and `sg_length` is its length.
pub record DmaBuf : Type 0 where
  pub sg_length : ℕ
  pub buf : List ℕ
  pub queued : Bool
  pub mapped : Bool

-- `struct comento_mmio_device`, with the levels of the three lamps. `wire` is what the controller
-- has moved to the data register.
pub record Cmdev : Type 0 where
  pub rx_size : ℕ
  pub tx : DmaBuf
  pub rx : DmaBuf
  pub led_tx : Bool
  pub led_rx : Bool
  pub led_data : Bool
  pub wire : List ℕ

-- `comento_mmio_get_device`, with the kernel's hash
abbrev pub get_device : Hashtable → Table Cmdev → ℕ → Option Cmdev
get_device hash = Devices.get_device hash

-- `comento_dma_tx_callback` and `comento_dma_rx_callback`
unfoldable pub tx_callback : Cmdev → Cmdev
tx_callback c = record c { tx = record (c.tx) { mapped = false; queued = false }; led_tx = false }

unfoldable pub rx_callback : Cmdev → Cmdev
rx_callback c = record c { rx = record (c.rx) { mapped = false; queued = false }; led_rx = false }

-- `dmaengine_terminate_sync` and the callback, if a job is queued
unfoldable pub stop_rx : Cmdev → Cmdev
unfolding rx_callback
stop_rx c = if c.rx.queued then rx_callback c else c

-- `comento_mmio_rx_dma_work_handler`: `residue` is what the controller says that it has left to do,
-- for a residue of at most the length of the list.
unfoldable pub rx_dma_work : Cmdev → ℕ → Cmdev
unfolding stop_rx
rx_dma_work c residue =
    let size : ℕ = c.rx.sg_length - residue in
    stop_rx (record c { rx_size = size; led_data = if size == 0 then c.led_data else true })

-- `comento_button_interrupt`
unfoldable pub button_interrupt : Cmdev → Cmdev
button_interrupt c = record c { rx_size = 0; led_data = false }

-- `comento_mmio_rx_work_handler`: mapping a list that is mapped already is an `oops`.
unfoldable pub rx_work : Cmdev → Bool → Bool → Outcome Cmdev
unfolding stop_rx
rx_work c map_works prep_works =
    let c' = stop_rx c in
    if c'.rx.mapped
    then oops
    else if map_works && prep_works
    then done (record c' { rx = record (c'.rx) { mapped = true; queued = true }; led_rx = true })
    else done c'

-- `comento_mmio_read`; without a device it reads nothing.
unfoldable pub read : (ℕ → ℕ) → Option Cmdev → ℕ → ℕ → Outcome (ℕ × List ℕ × ℕ)
read uncopied none len ppos = done (0, [], ppos)
read uncopied (some c) len ppos = Reading.read uncopied c.rx.buf c.rx_size len ppos

-- `copy_from_user` into `tx.buf`, and the length of the list
unfoldable pub load : Cmdev → List ℕ → Cmdev
load c bytes = record c {
  tx = record (c.tx) { buf = bytes ++ drop (length bytes) c.tx.buf; sg_length = length bytes };
}

unfoldable pub queue : Cmdev → Cmdev
queue c = record c { tx = record (c.tx) { mapped = true; queued = true }; led_tx = true }

-- What happens to a writer: `copy_in off n` are the bytes that `copy_from_user` copies when asked for
-- `n` from `off`, `wait` is what becomes of the device in `wait_event_interruptible`, and the
-- others tell whether the round from `off` on can map its list and prepare its job.
module _ (copy_in : ℕ → ℕ → List ℕ) (wait : Cmdev → Cmdev) (map_works prep_works : ℕ → Bool) where
  -- The loop of `comento_mmio_write`; a round that cannot map or prepare ends it.
  unfoldable pub write_loop : ℕ → Cmdev → ℕ → ℕ → Outcome (ℕ × Cmdev)
  unfolding load queue
  write_loop zero c off len = running
  write_loop (suc fuel) c off len =
      let bytes = copy_in off (min len buffer_size) in
      let c' = load (wait c) bytes in
      let rest = write_loop fuel (queue c') (off + length bytes) (len - length bytes) in
      if ltb 0 len
      then if c'.tx.mapped
        then oops
        else if map_works off && prep_works off
        then rest
        else done (off, c')
      else done (off, c)

  -- `comento_mmio_write`; without a device it writes nothing.
  unfoldable pub write : ℕ → Option Cmdev → ℕ → ℕ → Outcome (ℕ × ℕ × Option Cmdev)
  unfolding write_loop
  write fuel none len ppos = done (0, ppos, none)
  write fuel (some c) len ppos =
      write_loop fuel c 0 len >>= λ r. done (r.0, ppos + r.0, some (wait r.1))

-- What the interrupt handler schedules.
pub data Work : Type 0 where
  schedule_rx_work schedule_rx_dma_work : Work

-- `comento_mmio_interrupt`
unfoldable pub interrupt : (bus : Bus) → bus.Block → IrqReturn × List Work × bus.Block
interrupt bus d =
    let (cause, d') = bus.readl d mis in
    if has cause int_tx
    then (irq_handled, [], bus.writel d' icr int_tx)
    else if has cause int_rx
    then (irq_handled, schedule_rx_work ∷ [], bus.writel d' icr int_rx)
    else if has cause int_rx_empty
    then (irq_handled, schedule_rx_dma_work ∷ [], bus.writel d' icr int_rx_empty)
    else (irq_none, [], d')
