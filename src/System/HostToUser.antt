-- ===== src/System/HostToUser.antt =====
-- A message from the host to a user process: the property `data` of week03/mmio.c, the interrupt,
-- the receive work and the read of week02/mmio-driver.c.
use device_driver_on_so_c.Prelude.{
  ℕ, ◌≤◌, ◌<◌, ◌^◌, ◌≡◌, sym, ap, ◌∙◌, arith, List, [], ◌∷◌, map, bit, length, take, u8,
}
use device_driver_on_so_c.Qemu.Fifo.Contents.{used, contents, contents_of_unused, length-contents}
use device_driver_on_so_c.Qemu.Pipe.{push, push-fits}
use device_driver_on_so_c.Qemu.Mmio.{set_data}
use device_driver_on_so_c.Qemu.Mmio.Inv.{IsValid, set_data-IsValid}
use device_driver_on_so_c.Qemu.Mmio.Flags.{set_data_signals}
use device_driver_on_so_c.Qemu.Mmio.Refine.{contents-set_data}
use device_driver_on_so_c.Linux.Kernel.{done, irq_handled}
use device_driver_on_so_c.Linux.Reading as Reading
use device_driver_on_so_c.Linux.Reading.{read_all}
use device_driver_on_so_c.Linux.Pio.{Cmdev, schedule_rx_work, interrupt, rx_work}
use device_driver_on_so_c.System.Machine.{Machine, machine_bus}
use device_driver_on_so_c.System.Interrupt.{Quiet, interrupt_rx}
use device_driver_on_so_c.System.Receive.{rx_work_receives}

-- The numbers of the list are bytes.
abbrev pub AreBytes : List ℕ → Type 0
AreBytes xs = map u8 xs ≡ xs

module _ (sleep : Machine → Machine) where
  -- A message of 1 to 31 bytes that the host sets on a valid block, whose receive buffer is empty
  -- and whose receive interrupt is enabled while the transmit interrupt is quiet, makes the
  -- interrupt handler schedule the receive work, which returns, and a read from position 0 with a
  -- long enough length (below 2^63), every copy succeeding, then gives exactly the message.
  pub host_to_user :
      (cmdev : Cmdev (machine_bus sleep)) (x : ℕ) (xs : List ℕ) (len : ℕ) (uncopied : ℕ → ℕ)
      → let s = set_data cmdev.base.0 (x ∷ xs) in
        let called = interrupt (machine_bus sleep) (s, cmdev.base.1) in
        IsValid cmdev.base.0
        → used cmdev.base.0.receive ≡ 0
        → length cmdev.rx_buf ≡ 32
        → AreBytes (x ∷ xs)
        → length (x ∷ xs) ≤ 31
        → length (x ∷ xs) ≤ len
        → len < 2 ^ 63
        → bit 0 s.imsc ≡ 1
        → Quiet 1 s
        → ((n : ℕ) → uncopied n ≡ 0)
        → (called.0 ≡ irq_handled)
          × (called.1 ≡ schedule_rx_work ∷ [])
          × ((cmdev' : Cmdev (machine_bus sleep)) × (rx_work
                  (machine_bus sleep)
                  32
                  (record cmdev { base = called.2 })
                ≡ done cmdev')
              × (Reading.read uncopied cmdev'.rx_buf cmdev'.rx_size len 0
                  ≡ done (length (x ∷ xs), x ∷ xs, length (x ∷ xs))))
  host_to_user cmdev x xs len uncopied v empty size bytes fits asked small on quiet copies =
      let s = set_data cmdev.base.0 (x ∷ xs) in
      let valid : IsValid s = set_data-IsValid (x ∷ xs) v in
      let (handled, scheduled, valid', cleared, other, kept) =
        interrupt_rx sleep (s, cmdev.base.1) valid quiet ((set_data_signals x xs v).0, on) in
      let (cmdev', worked, valid'', none_left, same, size', count, stored) =
        rx_work_receives sleep
          (record cmdev { base = (interrupt (machine_bus sleep) (s, cmdev.base.1)).2 }) valid'
          size in
      let held : contents (interrupt (machine_bus sleep) (s, cmdev.base.1)).2.0.receive ≡ x ∷ xs =
        ap contents kept
        ∙ (contents-set_data (x ∷ xs) v).0
        ∙ ap (λ (q : List ℕ). push q (x ∷ xs)) (contents_of_unused cmdev.base.0.receive empty)
        ∙ push-fits (x ∷ xs) fits
        ∙ bytes in
      let counted : cmdev'.rx_size ≡ length (x ∷ xs) =
        count ∙ sym (length-contents _) ∙ ap length held in
      let whole : take cmdev'.rx_size cmdev'.rx_buf ≡ x ∷ xs = stored ∙ ap (map u8) held ∙ bytes in
      (
        handled,
        scheduled,
        (
          cmdev',
          worked,
          read_all cmdev'.rx_buf cmdev'.rx_size len uncopied (omega arith) (omega arith) small
                (omega arith) copies
              ∙ cc,
        ),
      )
