-- ===== src/System/Interrupt.antt =====
-- `comento_mmio_interrupt` of week02/mmio-driver.c over the block of week03/mmio.c.
use device_driver_on_so_c.Prelude.{
  ℕ, ◌≡◌, refl, ◌∙◌, arith, true, false, ◌⊎◌, [], ◌∷◌, bit, bit-and, bit_and, bit_and_one,
  bit_and_two, has,
}
use device_driver_on_so_c.Registers.{icr, int_tx, int_rx}
use device_driver_on_so_c.Qemu.Mmio.{MmioComento}
use device_driver_on_so_c.Qemu.Mmio.Inv.{IsValid, write-IsValid}
use device_driver_on_so_c.Qemu.Mmio.Flags.{icr_bits}
use device_driver_on_so_c.Qemu.Mmio.Refine.{read-mis, write-icr}
use device_driver_on_so_c.Linux.Kernel.{irq_handled, irq_none}
use device_driver_on_so_c.Linux.Pio.{wake_tx_wq, schedule_rx_work, interrupt}
use device_driver_on_so_c.System.Machine.{Machine, machine_bus}

-- An interrupt is pending if its bit is set in RIS and in IMSC.
abbrev pub Pending : ℕ → MmioComento → Type 0
Pending k s = (bit k s.ris ≡ 1) × (bit k s.imsc ≡ 1)

abbrev pub Quiet : ℕ → MmioComento → Type 0
Quiet k s = (bit k s.ris ≡ 0) ⊎ (bit k s.imsc ≡ 0)

module _ (sleep : Machine → Machine) where
  -- On a valid block with the transmit interrupt pending, the handler returns IRQ_HANDLED, wakes
  -- the writers, clears the transmit interrupt, keeps the receive bit, and leaves the block valid.
  pub interrupt_tx :
      (m : Machine)
      → IsValid m.0
      → Pending 1 m.0
      → let r = interrupt (machine_bus sleep) m in
        (r.0 ≡ irq_handled)
        × (r.1 ≡ wake_tx_wq ∷ [])
        × IsValid r.2.0
        × (bit 1 r.2.0.ris ≡ 0)
        × (bit 0 r.2.0.ris ≡ bit 0 m.0.ris)
  unfolding interrupt bit
  interrupt_tx m v p =
      rw (read-mis m.0, tx)
        (
          refl,
          refl,
          write-IsValid icr int_tx v,
          (icr_bits 1 int_tx v (omega arith)).0 refl ∙ omega arith,
          (icr_bits 0 int_tx v (omega arith)).1 refl,
        )
    where
      tx : has (bit_and m.0.ris m.0.imsc) int_tx ≡ true
      tx = ground (arith, bit_and_two (bit_and m.0.ris m.0.imsc), bit-and 1 m.0.ris m.0.imsc)

  -- On a valid block with the receive interrupt pending and the transmit interrupt quiet, the
  -- handler returns IRQ_HANDLED, schedules the receive work once, clears the receive interrupt,
  -- keeps the transmit bit and the received bytes, and leaves the block valid.
  pub interrupt_rx :
      (m : Machine)
      → IsValid m.0
      → Quiet 1 m.0
      → Pending 0 m.0
      → let r = interrupt (machine_bus sleep) m in
        (r.0 ≡ irq_handled)
        × (r.1 ≡ schedule_rx_work ∷ [])
        × IsValid r.2.0
        × (bit 0 r.2.0.ris ≡ 0)
        × (bit 1 r.2.0.ris ≡ bit 1 m.0.ris)
        × (r.2.0.receive ≡ m.0.receive)
  unfolding interrupt bit
  interrupt_rx m v q p =
      rw (read-mis m.0, no_tx, rx)
        (
          refl,
          refl,
          write-IsValid icr int_rx v,
          (icr_bits 0 int_rx v (omega arith)).0 refl ∙ omega arith,
          (icr_bits 1 int_rx v (omega arith)).1 refl,
          (write-icr m.0 int_rx).4,
        )
    where
      no_tx : has (bit_and m.0.ris m.0.imsc) int_tx ≡ false
      no_tx = ground (arith, bit_and_two (bit_and m.0.ris m.0.imsc), bit-and 1 m.0.ris m.0.imsc)

      rx : has (bit_and m.0.ris m.0.imsc) int_rx ≡ true
      rx = ground (arith, bit_and_one (bit_and m.0.ris m.0.imsc), bit-and 0 m.0.ris m.0.imsc)

  -- With neither interrupt pending, the handler returns IRQ_NONE, asks for nothing and leaves the
  -- block as it was.
  pub interrupt_none :
      (m : Machine)
      → Quiet 1 m.0
      → Quiet 0 m.0
      → interrupt (machine_bus sleep) m ≡ (irq_none, [], m)
  unfolding interrupt
  interrupt_none m q p = rw (read-mis m.0, no_tx, no_rx) refl
    where
      no_tx : has (bit_and m.0.ris m.0.imsc) int_tx ≡ false
      no_tx = ground (arith, bit_and_two (bit_and m.0.ris m.0.imsc), bit-and 1 m.0.ris m.0.imsc)

      no_rx : has (bit_and m.0.ris m.0.imsc) int_rx ≡ false
      no_rx = ground (arith, bit_and_one (bit_and m.0.ris m.0.imsc), bit-and 0 m.0.ris m.0.imsc)
