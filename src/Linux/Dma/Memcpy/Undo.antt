-- ===== src/Linux/Dma/Memcpy/Undo.antt =====
-- What the driver of week04/mmio-memcpy.c gives back, and how its interrupt handler compares.
use device_driver_on_so_c.Linux.Table.{Hashtable}
use device_driver_on_so_c.Prelude.{
  ℕ, ◌≡◌, ◌<◌, ◌≢◌, refl, arith, Bool, true, false, not, ◌&&◌, some, ◌==◌, bit_or, map,
}
use device_driver_on_so_c.Linux.Kernel.{Bus, done}
use device_driver_on_so_c.Registers.{int_rx, int_tx, int_rx_empty}
use device_driver_on_so_c.Linux.Probe.{Answer, got, failed, enomem, put, Module, going}
use device_driver_on_so_c.Linux.Probe.Undo.{all_succeed}
use device_driver_on_so_c.Linux.Dma.Life.{State, begin, after_node, get_irq, get_button}
use device_driver_on_so_c.Linux.Dma.Life.Undo.{with_irq, begin_lem, remove_lem, removed, module_of}
use device_driver_on_so_c.Linux.Dma as Dma
use device_driver_on_so_c.Linux.Dma.Channels.{Setup, Channels, channel}
use device_driver_on_so_c.Linux.Pio as Pio
use device_driver_on_so_c.Linux.Dma.Memcpy.{
  Work, wake_tx_wq, schedule_rx_work, schedule_rx_dma_work, interrupt, dma_init, dma_probe, memcpy,
  CopyAnswers, set_up_dma, probe, remove,
}

-- What the two handlers ask for, as this driver says it.
pub from_dma : Dma.Work → Work
from_dma Dma.schedule_rx_work = schedule_rx_work
from_dma Dma.schedule_rx_dma_work = schedule_rx_dma_work

pub from_pio : Pio.Action → Work
from_pio Pio.wake_tx_wq = wake_tx_wq
from_pio Pio.schedule_rx_work = schedule_rx_work

-- With a DMA engine the interrupt handler of week04/mmio-memcpy.c does what that of week04/mmio.c
-- does, and without one what that of week02/mmio-driver.c does, over any block.
pub interrupt_lem :
    (bus : Bus) (d : bus.Block)
    → (let (ret, works, d') = Dma.interrupt bus d in
        interrupt true bus d ≡ (ret, map from_dma works, d'))
      × (let (ret, works, d') = Pio.interrupt bus d in
          interrupt false bus d ≡ (ret, map from_pio works, d'))
unfolding interrupt Dma.interrupt Pio.interrupt from_dma from_pio
interrupt_lem bus d = ground arith

-- The channel that the engine answers with was free.
unfoldable pub is_free : Answer → (ℕ → Bool) → Bool
is_free (got name) held = not (held name)
is_free (failed err) held = true

-- A set-up of one direction that fails leaves the channels given out as they were, if the one it
-- asked for was free.
pub dma_init_releases :
    (answer : Answer) (memory : Bool) (dma : Setup) (held : ℕ → Bool) (k : ℕ)
    → is_free answer held ≡ true
    → (dma_init answer memory dma held).0 ≢ 0
    → (dma_init answer memory dma held).2 k ≡ held k
unfolding dma_init is_free
dma_init_releases (got name) true dma held k free h = absurd (h refl)
dma_init_releases (got name) false dma held k free h = ground arith
dma_init_releases (failed err) memory dma held k free h = refl

-- When the channel for "tx" is set up and the one for "rx" fails, for want of a channel or of
-- memory, the set-up of DMA returns the error and keeps the channel for "tx".
pub dma_probe_keeps_tx :
    (t r err : ℕ) (memory : Bool) (c : Channels)
    → 0 < err
    → r ≢ t
    → (let (ret, c') = dma_probe (got t) (failed err) true memory c in
        (ret ≡ err) × (c'.held t ≡ true))
      × (let (ret, c') = dma_probe (got t) (got r) true false c in
          (ret ≡ enomem) × (c'.held t ≡ true) × (c'.held r ≡ false))
unfolding dma_probe dma_init
dma_probe_keeps_tx t r err memory c h apart = ground arith

module _ (hash : Hashtable) (answers : CopyAnswers) (adev : ℕ) (s : State) where
  -- The state at the end of a probe that succeeds, from the module with its node.
  abbrev copied : Module → ℕ → ℕ → ℕ → State
  copied m t r name =
      get_button hash answers.dma adev (record (with_irq adev (record s { life = m })) {
        life = record (with_irq adev (record s { life = m })).life {
          imsc = put m.imsc adev (bit_or (bit_or int_rx int_tx) int_rx_empty);
        };
        tx = put s.tx adev (record { chan = channel t; has_buf = true; queued = false });
        rx = put s.rx adev (record { chan = channel r; has_buf = true; queued = false });
        held = put (put (put s.held t true) r true) name true;
      })

  probe_lem :
      (m : Module) (t r name : ℕ)
      → answers.dma.base.request_regions == 0 ≡ true
      → answers.dma.base.request_irq == 0 ≡ true
      → begin hash answers.dma adev s.life ≡ going m
      → m.imsc adev ≡ bit_or int_rx int_tx
      → answers.dma.tx_chan ≡ got t
      → answers.dma.rx_chan ≡ got r
      → answers.dma.dma_memory ≡ true
      → answers.rx_memory ≡ true
      → answers.has_irq ≡ true
      → answers.copy_chan ≡ some name
      → answers.copy_memory && answers.prepared ≡ true
      → probe hash answers adev s ≡ done (0, copied m t r name)
  unfolding probe after_node get_irq set_up_dma dma_probe dma_init memcpy get_button
  probe_lem m t r name allowed given begun imsc tx rx mem mem' irq found ready =
      rw (allowed, begun, irq, given, tx, rx, mem, mem', imsc, found, ready) refl

  -- When every call of the probe of week04/mmio-memcpy.c succeeds and its three channels differ,
  -- remove gives back the two of the device but not the one that was copied through: it stays given
  -- out.
  pub copy_keeps_channel :
      (t r name : ℕ)
      → all_succeed answers.dma.base s.life ≡ true
      → answers.dma.tx_chan ≡ got t
      → answers.dma.rx_chan ≡ got r
      → answers.dma.dma_memory ≡ true
      → answers.rx_memory ≡ true
      → answers.has_irq ≡ true
      → answers.copy_chan ≡ some name
      → answers.copy_memory && answers.prepared ≡ true
      → name ≢ t
      → name ≢ r
      → (s' s'' : State) × (probe hash answers adev s ≡ done (0, s'))
        × (remove hash adev s' ≡ done s'')
        × (s''.held t ≡ false)
        × (s''.held r ≡ false)
        × (s''.held name ≡ true)
  unfolding get_button
  copy_keeps_channel t r name e tx rx mem mem' irq found ready apart apart' =
      let (begun, made) = begin_lem hash answers.dma adev s (ground arith) in
      let m : Module = module_of s.life (begin hash answers.dma adev s.life) in
      let s' : State = copied m t r name in
      (
        s',
        removed hash adev s.life.minor t r s',
        probe_lem m t r name (ground arith) (ground arith) begun made.5 tx rx mem mem' irq found
            ready,
        remove_lem hash adev s.life.minor t r s' (ground arith) (ground arith) (ground arith),
        ground arith,
        ground arith,
        ground arith,
      )
