-- ===== src/Qemu/Mmio/Frame.antt =====
-- What the accesses to the block of week03/mmio.c leave alone.
use device_driver_on_so_c.Prelude.{
  ℕ, ◌≡◌, refl, arith, some, List, [], ◌∷◌, bit, raise_two, clear_two,
}
use device_driver_on_so_c.Registers.{dr}
use device_driver_on_so_c.Qemu.Fifo.{Fifo}
use device_driver_on_so_c.Qemu.Fifo.Contents.{contents}
use device_driver_on_so_c.Qemu.Mmio.{
  MmioComento, update, after_put, write, received, set_data, sent, take_data,
}
use device_driver_on_so_c.Qemu.Mmio.Inv.{IsValid, drain_lem, sent-IsValid}

-- A change that leaves alone IMSC, the receive interrupt and the receive buffer.
abbrev pub Keeps : MmioComento → MmioComento → Type 0
Keeps s s' = (s'.imsc ≡ s.imsc) × (bit 0 s'.ris ≡ bit 0 s.ris) × (s'.receive ≡ s.receive)

pub write-dr-Keeps : (s : MmioComento) (x : ℕ) → Keeps s (write s dr x)
unfolding write after_put update
write-dr-Keeps s x = ground (arith, clear_two s.ris)

pub set_data_keeps : (s : MmioComento) (xs : List ℕ) → (set_data s xs).imsc ≡ s.imsc
unfolding set_data received update
set_data_keeps s [] = refl
set_data_keeps s (x ∷ xs) = refl

sent-Keeps : (s : MmioComento) (g : Fifo) → Keeps s (sent s g)
unfolding sent update
sent-Keeps s g = (refl, (raise_two s.ris).0, refl)

pub take_data-Keeps :
    {s : MmioComento}
    → IsValid s
    → (xs : List ℕ) × (s' : MmioComento) × (take_data s ≡ some (xs, s')) × IsValid s' × Keeps s s'
unfolding take_data
take_data-Keeps {s} v =
    let (g, drained, valid, none_left) = drain_lem 32 s.transmit v.tx_valid (omega arith) in
    (
      contents s.transmit,
      sent s g,
      rw (take_data, drained) refl,
      sent-IsValid g v valid none_left,
      sent-Keeps s g,
    )
