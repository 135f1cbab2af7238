-- ===== src/Qemu/Mmio/Flags.antt =====
-- The flags, interrupts and busy lines of the MMIO block, as a guest sees them.
use device_driver_on_so_c.Prelude.{
  ℕ, ◌-◌, ◌≤◌, ◌<◌, ◌^◌, ◌≡◌, ap, ◌∙◌, arith, true, false, List, ◌∷◌, ◌==◌, if◌then◌else◌, bit,
  bit-xor, bit-le-one, bit_xor-lt, bit_xor, clear, raise, u32, raise_one, raise_two, raise_four,
  clear_one, clear_two, clear_four,
}
use device_driver_on_so_c.Registers.{dr, icr}
use device_driver_on_so_c.Qemu.Fifo.Contents as Fifo_contents
use device_driver_on_so_c.Qemu.Fifo.Contents.{used}
use device_driver_on_so_c.Qemu.Mmio.{
  MmioComento, update, after_take, read, write, received, set_data,
}
use device_driver_on_so_c.Qemu.Mmio.Inv.{IsValid, take_byte-IsValid, used-take_byte}

-- A read of DR from a full receive buffer of a valid block leaves 30 bytes and the flag RXFF still
-- set.
pub rxff_stale :
    {s : MmioComento}
    → IsValid s
    → used s.receive ≡ 31
    → (used (read s dr).1.receive ≡ 30) × (bit 0 (read s dr).1.flag ≡ 1)
unfolding read after_take update
rxff_stale {s} v h =
    ground
      (arith, used-take_byte v.rx_valid, Fifo_contents.is_empty-used (take_byte-IsValid v.rx_valid))

pub icr_bits :
    {s : MmioComento} (k m : ℕ)
    → IsValid s
    → m < 2 ^ 32
    → (bit k m ≡ 1 → bit k (write s icr m).ris ≡ 1 - bit k s.ris)
      × (bit k m ≡ 0 → bit k (write s icr m).ris ≡ bit k s.ris)
unfolding write update
icr_bits {s} k m v small = (
  λ h. ap (bit k) unwrapped ∙ omega (arith, bit-xor k s.ris m, bit-le-one k s.ris),
  λ h. ap (bit k) unwrapped ∙ omega (arith, bit-xor k s.ris m, bit-le-one k s.ris),
)
  where
    unwrapped : u32 (bit_xor s.ris m) ≡ bit_xor s.ris m
    unwrapped = omega (arith, bit_xor-lt 32 s.ris m v.ris_width small)

-- A write of a 32-bit value to ICR of a valid block flips exactly the bits of RIS that are set in
-- the value, so it also raises interrupts that are not pending.
pub icr_toggles :
    {s : MmioComento} (k m : ℕ)
    → IsValid s
    → m < 2 ^ 32
    → bit k (write s icr m).ris ≡ (if bit k m == 1 then 1 - bit k s.ris else bit k s.ris)
icr_toggles {s} k m v small = ground (arith, icr_bits k m v small, bit-le-one k m)

-- Data from the host, at least one byte, to a valid block raises the receive interrupt, withdraws
-- the one for an empty buffer, clears RXFE and frees the DMA receive line.
pub set_data_signals :
    {s : MmioComento} (x : ℕ) (xs : List ℕ)
    → IsValid s
    → let s' = set_data s (x ∷ xs) in
      (bit 0 s'.ris ≡ 1) × (bit 2 s'.ris ≡ 0) × (bit 1 s'.flag ≡ 0) × (s'.dma_rx_busy ≡ false)
unfolding set_data received update
set_data_signals {s} x xs v = ground (
  arith,
  raise_one s.ris,
  clear_four (raise s.ris 1),
  clear_two s.flag,
  raise_one (clear s.flag 2),
)

-- A read of DR from a valid block with at most one byte left sets RXFE, clears RXFF and the
-- receive interrupt, raises the interrupt for an empty buffer and stops the DMA receive line.
pub last_read_signals :
    {s : MmioComento}
    → IsValid s
    → used s.receive ≤ 1
    → let s' = (read s dr).1 in
      (bit 1 s'.flag ≡ 1)
      × (bit 0 s'.flag ≡ 0)
      × (bit 0 s'.ris ≡ 0)
      × (bit 2 s'.ris ≡ 1)
      × (s'.dma_rx_busy ≡ true)
unfolding read after_take update
last_read_signals {s} v h = ground (
  arith,
  used-take_byte v.rx_valid,
  Fifo_contents.is_empty-used (take_byte-IsValid v.rx_valid),
  clear_one s.flag,
  raise_two (clear s.flag 1),
  clear_one s.ris,
  raise_four (clear s.ris 1),
)

-- A read of DR leaves IMSC and the transmit interrupt alone.
pub read_keeps :
    (s : MmioComento) → ((read s dr).1.imsc ≡ s.imsc) × (bit 1 (read s dr).1.ris ≡ bit 1 s.ris)
unfolding read after_take update
read_keeps s = ground (arith, clear_one s.ris, raise_four (clear s.ris 1))
