-- ===== src/System/Machine.antt =====
-- The block of week03/mmio.c as the registers behind a driver's `base`, with all bytes that reads of
-- the host took out of its transmit buffer so far; of each read, the host gets those before its
-- first 0. What happens while a process sleeps is the parameter `sleep`.
use device_driver_on_so_c.Prelude.{
  ℕ, ◌<◌, ◌≡◌, arith, true, false, none, some, List, ◌++◌, append-nil, bit_and_four, bit_and_two,
  has, ap, ◌∙◌,
}
use device_driver_on_so_c.Registers.{flag_txff, flag_rxfe}
use device_driver_on_so_c.Qemu.Fifo.Contents.{used, contents, contents_of_unused}
use device_driver_on_so_c.Qemu.Mmio.{MmioComento, read, write, take_data}
use device_driver_on_so_c.Qemu.Mmio.Inv.{IsValid, take_data_lem}
use device_driver_on_so_c.Linux.Kernel.{Bus}

abbrev pub Machine : Type 0
Machine = MmioComento × List ℕ

abbrev pub machine_bus : (Machine → Machine) → Bus
machine_bus sleep = record {
  Block = Machine;
  readl = λ m offset. let (r, s) = read m.0 offset in (r, (s, m.1));
  writel = λ m offset value. (write m.0 offset value, m.1);
  sleep = sleep;
}

-- All that was taken out of the transmit buffer, with what is still in it.
abbrev pub sent_so_far : Machine → List ℕ
sent_so_far m = m.1 ++ contents m.0.transmit

-- The process sleeps until there is room: it is not woken by a signal, and meanwhile the block
-- stays valid and no byte of the buffer is dropped.
pub record Wakes (sleep : Machine → Machine) : Type 0 where
  pub stays_valid : (m : Machine) → IsValid m.0 → IsValid (sleep m).0
  pub room : (m : Machine) → IsValid m.0 → used (sleep m).0.transmit < 31
  pub conserved : (m : Machine) → IsValid m.0 → sent_so_far (sleep m) ≡ sent_so_far m

-- A host that reads the property `data` while the process sleeps.
abbrev pub host_reads : Machine → Machine
host_reads m = elim (take_data m.0) [ none ↦ m | some (xs, s) ↦ (s, m.1 ++ xs) ]

pub host_reads-Wakes : Wakes host_reads
host_reads-Wakes = record {
  stays_valid =
      λ m v. let (s', done, valid, emptied, kept) = take_data_lem v in rw (host_reads, done) valid;
  room = λ m v.
      let (s', done, valid, emptied, kept) = take_data_lem v in rw (host_reads, done) (omega arith);
  conserved = λ m v.
      let (s', done, valid, emptied, kept) = take_data_lem v in
      rw (host_reads, done)
        (ap (λ (l : List ℕ). (m.1 ++ contents m.0.transmit) ++ l)
            (contents_of_unused s'.transmit emptied)
          ∙ append-nil (m.1 ++ contents m.0.transmit));
}

-- The flags as the drivers test them.
pub has_txff :
    {s : MmioComento}
    → IsValid s
    → (has s.flag flag_txff ≡ true → used s.transmit ≡ 31)
      × (has s.flag flag_txff ≡ false → used s.transmit < 31)
has_txff {s} v = ground (arith, bit_and_four s.flag)

pub has_rxfe :
    {s : MmioComento}
    → IsValid s
    → (has s.flag flag_rxfe ≡ true → used s.receive ≡ 0)
      × (has s.flag flag_rxfe ≡ false → 0 < used s.receive)
has_rxfe {s} v = ground (arith, bit_and_two s.flag)
