-- ===== src/Linux/Dma/Bare.antt =====
-- The driver of week03/mmio-driver.c: the bytes are left to the DMA controller, and there are no
-- lamps and no button yet. Its buffers are `DmaBuf` of `Dma`.
pub mod Same
pub mod Send
use device_driver_on_so_c.Prelude.{
  ℕ, zero, suc, ◌+◌, ◌-◌, min, Bool, true, false, Option, none, some, List, [], ◌++◌, ltb,
  if◌then◌else◌, length, drop, ◌&&◌,
}
use device_driver_on_so_c.Linux.Kernel.{Outcome, done, oops, running, ◌>>=◌, IrqReturn, Bus}
use device_driver_on_so_c.Linux.Reading as Reading
use device_driver_on_so_c.Linux.Table as Devices
use device_driver_on_so_c.Linux.Table.{Table, Hashtable}
use device_driver_on_so_c.Linux.Probe.{Answer}
use device_driver_on_so_c.Linux.Dma as Dma
use device_driver_on_so_c.Linux.Dma.Channels as Channels
use device_driver_on_so_c.Linux.Dma.Channels.{Setup}
use device_driver_on_so_c.Linux.Dma.{DmaBuf, buffer_size}

-- `struct comento_mmio_device`; `wire` is what the controller has moved to the data register.
pub record Cmdev : Type 0 where
  pub rx_size : ℕ
  pub tx : DmaBuf
  pub rx : DmaBuf
  pub wire : List ℕ

-- `comento_dma_tx_callback` and `comento_dma_rx_callback`
unfoldable pub tx_callback : Cmdev → Cmdev
tx_callback c = record c { tx = record (c.tx) { mapped = false; queued = false } }

pub rx_callback : Cmdev → Cmdev
rx_callback c = record c { rx = record (c.rx) { mapped = false; queued = false } }

-- `dmaengine_terminate_sync` and the callback, if a job is queued
pub stop_rx : Cmdev → Cmdev
unfolding rx_callback
stop_rx c = if c.rx.queued then rx_callback c else c

-- `comento_mmio_rx_dma_work_handler`, for a residue of at most the length of the list
pub rx_dma_work : Cmdev → ℕ → Cmdev
unfolding stop_rx
rx_dma_work c residue = stop_rx (record c { rx_size = c.rx.sg_length - residue })

-- `comento_mmio_rx_work_handler`
pub rx_work : Cmdev → Bool → Bool → Outcome Cmdev
unfolding stop_rx
rx_work c map_works prep_works =
    let c' = stop_rx c in
    if c'.rx.mapped
    then oops
    else if map_works && prep_works
    then done (record c' { rx = record (c'.rx) { mapped = true; queued = true } })
    else done c'

-- `comento_mmio_read`
pub read : (ℕ → ℕ) → Option Cmdev → ℕ → ℕ → Outcome (ℕ × List ℕ × ℕ)
read uncopied none len ppos = done (0, [], ppos)
read uncopied (some c) len ppos = Reading.read uncopied c.rx.buf c.rx_size len ppos

-- The arguments are those of `Dma.write`.
module _ (copy_in : ℕ → ℕ → List ℕ) (wait : Cmdev → Cmdev) (map_works prep_works : ℕ → Bool) where
  -- The loop of `comento_mmio_write`
  pub write_loop : ℕ → Cmdev → ℕ → ℕ → Outcome (ℕ × Cmdev)
  write_loop zero c off len = running
  write_loop (suc fuel) c off len =
      let bytes = copy_in off (min len buffer_size) in
      let w = wait c in
      let c' = record w {
        tx = record (w.tx) {
          buf = bytes ++ drop (length bytes) w.tx.buf;
          sg_length = length bytes;
        };
      } in
      let rest =
        write_loop fuel (record c' { tx = record (c'.tx) { mapped = true; queued = true } })
          (off + length bytes) (len - length bytes) in
      if ltb 0 len
      then if c'.tx.mapped
        then oops
        else if map_works off && prep_works off
        then rest
        else done (off, c')
      else done (off, c)

  -- `comento_mmio_write`
  pub write : ℕ → Option Cmdev → ℕ → ℕ → Outcome (ℕ × ℕ × Option Cmdev)
  unfolding write_loop
  write fuel none len ppos = done (0, ppos, none)
  write fuel (some c) len ppos =
      write_loop fuel c 0 len >>= λ r. done (r.0, ppos + r.0, some (wait r.1))

-- The functions that are those of week04/mmio.c; the probe and the remove are in `Life`.
abbrev pub get_device : Hashtable → Table Cmdev → ℕ → Option Cmdev
get_device hash = Devices.get_device hash

abbrev pub interrupt : (bus : Bus) → bus.Block → IrqReturn × List Dma.Work × bus.Block
interrupt = Dma.interrupt

abbrev pub dma_init : Answer → Bool → Setup → (ℕ → Bool) → ℕ × Setup × (ℕ → Bool)
dma_init = Channels.dma_init

abbrev pub dma_probe : Answer → Answer → Bool → Channels.Channels → Outcome (ℕ × Channels.Channels)
dma_probe = Channels.dma_probe
