-- ===== src/System/Transfer/Signals.antt =====
-- The interrupts of a transfer: `comento_mmio_interrupt` of week04/mmio.c over the block of
-- week03/mmio.c, and what the controller's reads do to RIS.
use device_driver_on_so_c.Prelude.{
  ℕ, ◌≡◌, refl, ◌∙◌, arith, true, false, List, [], ◌∷◌, bit, bit-and, bit_and, bit_and_one,
  bit_and_two, bit_and_four, has,
}
use device_driver_on_so_c.Registers.{dr, icr, int_tx, int_rx, int_rx_empty}
use device_driver_on_so_c.Qemu.Fifo.Contents.{used}
use device_driver_on_so_c.Qemu.Mmio.{MmioComento, write}
use device_driver_on_so_c.Qemu.Mmio.Inv.{IsValid, read-IsValid, used-take_byte}
use device_driver_on_so_c.Qemu.Mmio.Flags.{last_read_signals, read_keeps}
use device_driver_on_so_c.Qemu.Mmio.Refine.{read-mis, transmit-read}
use device_driver_on_so_c.Linux.Kernel.{irq_handled}
use device_driver_on_so_c.Linux.Dma.{interrupt, schedule_rx_work, schedule_rx_dma_work}
use device_driver_on_so_c.System.Machine.{Machine, machine_bus}
use device_driver_on_so_c.System.Interrupt.{Pending, Quiet}
use device_driver_on_so_c.System.Transfer.{Takes, taken, takes_byte}

module _ (sleep : Machine → Machine) (m : Machine) (quiet : Quiet 1 m.0) where
  no_tx : has (bit_and m.0.ris m.0.imsc) int_tx ≡ false
  unfolding bit
  no_tx = ground (arith, bit_and_two (bit_and m.0.ris m.0.imsc), bit-and 1 m.0.ris m.0.imsc)

  -- With the receive interrupt pending and the transmit interrupt quiet, the handler schedules the
  -- receive work.
  pub interrupt_received :
      Pending 0 m.0
      → interrupt (machine_bus sleep) m
        ≡ (irq_handled, schedule_rx_work ∷ [], (write m.0 icr int_rx, m.1))
  unfolding interrupt bit
  interrupt_received p = rw (read-mis m.0, no_tx, rx) refl
    where
      rx : has (bit_and m.0.ris m.0.imsc) int_rx ≡ true
      rx = ground (arith, bit_and_one (bit_and m.0.ris m.0.imsc), bit-and 0 m.0.ris m.0.imsc)

  -- With only the interrupt for an empty buffer pending, it schedules the work at the end of the
  -- data.
  pub interrupt_emptied :
      Quiet 0 m.0
      → Pending 2 m.0
      → interrupt (machine_bus sleep) m
        ≡ (irq_handled, schedule_rx_dma_work ∷ [], (write m.0 icr int_rx_empty, m.1))
  unfolding interrupt bit
  interrupt_emptied q p = rw (read-mis m.0, no_tx, no_rx, emptied) refl
    where
      no_rx : has (bit_and m.0.ris m.0.imsc) int_rx ≡ false
      no_rx = ground (arith, bit_and_one (bit_and m.0.ris m.0.imsc), bit-and 0 m.0.ris m.0.imsc)

      emptied : has (bit_and m.0.ris m.0.imsc) int_rx_empty ≡ true
      emptied = ground (arith, bit_and_four (bit_and m.0.ris m.0.imsc), bit-and 2 m.0.ris m.0.imsc)

-- An empty receive buffer was reported: RX is down and RX_EMPTY up.
abbrev pub Reported : MmioComento → Type 0
Reported s = used s.receive ≡ 0 → (bit 0 s.ris ≡ 0) × (bit 2 s.ris ≡ 1)

-- The controller's reads report the empty buffer, and leave IMSC and the transmit interrupt alone.
pub takes_signal :
    {m m' : Machine} {xs : List ℕ}
    → Takes m xs m'
    → IsValid m.0
    → Reported m.0
    → Reported m'.0 × (m'.0.imsc ≡ m.0.imsc) × (bit 1 m'.0.ris ≡ bit 1 m.0.ris)
takes_signal taken v reported = (reported, refl, refl)
takes_signal {m} (takes_byte low rest) v reported =
    let (same, same') = read_keeps m.0 in
    let (reported', imsc, tx) = takes_signal rest (read-IsValid dr v) (λ none_left.
      let signals =
        last_read_signals v (ground (arith, transmit-read m.0 dr, used-take_byte v.rx_valid)) in
      (signals.2, signals.3)) in
    (reported', imsc ∙ same, tx ∙ same')
