-- ===== src/System/Between/Tests.antt =====
-- Calls with the host and the interrupt handler in their middle, on concrete bytes.
use device_driver_on_so_c.Prelude.{
  ℕ, zero, suc, ◌+◌, ◌≡◌, refl, arith, some, List, [], ◌∷◌, ◌++◌, map, length, take, drop,
  replicate, u8,
}
use device_driver_on_so_c.Qemu.Fifo.Contents.{used}
use device_driver_on_so_c.Qemu.Fifo.{is_full, enqueue}
use device_driver_on_so_c.Qemu.Mmio.{MmioComento, init, set_data, fill, received, update}
use device_driver_on_so_c.Qemu.Mmio.Inv.{IsValid, init-IsValid, set_data-IsValid}
use device_driver_on_so_c.Linux.Kernel.{done, oops}
use device_driver_on_so_c.Linux.Pio as Pio
use device_driver_on_so_c.Linux.Pio.{Cmdev, rx_work}
use device_driver_on_so_c.System.Machine.{sent_so_far, host_reads, host_reads-Wakes}
use device_driver_on_so_c.System.Between.{
  gets, interrupts, sets, Visits, Visited, offered, given, given_by, between_bus,
}
use device_driver_on_so_c.System.Between.Receive.{to_come, bytes_to_come, rx_work_between}
use device_driver_on_so_c.System.Between.Overrun.{Fed, enough, again, feeds, rx_work_overruns}
use device_driver_on_so_c.System.Between.Transmit.{write_between}

-- "hi" waits; "!" comes before the third access, and the handler runs before the second.
abbrev hi : List ℕ
hi = 104 ∷ 105 ∷ []

abbrev plan : Visits
plan = [] ∷ (interrupts ∷ []) ∷ (gets ∷ sets (33 ∷ []) ∷ []) ∷ []

abbrev with_hi : MmioComento
with_hi = set_data init hi

abbrev device : Cmdev (between_bus host_reads)
device = record { base = ((with_hi, []), plan); rx_buf = replicate 32 0; rx_size = 0 }

rx_work_between_example :
    (cmdev' : Cmdev (between_bus host_reads)) × (rx_work (between_bus host_reads) 32 device
      ≡ done cmdev')
    × IsValid cmdev'.base.0.0
    × (used cmdev'.base.0.0.receive ≡ 0)
    × (sent_so_far cmdev'.base.0 ≡ sent_so_far device.base.0)
    × (length cmdev'.rx_buf ≡ 32)
    × (cmdev'.rx_size + length (offered cmdev'.base.1) ≡ bytes_to_come host_reads device.base)
    × (take cmdev'.rx_size cmdev'.rx_buf ++ map u8 (offered cmdev'.base.1)
        ≡ to_come host_reads device.base)
unfolding set_data received fill update is_full enqueue offered given given_by init
rx_work_between_example =
    rx_work_between host_reads device (set_data-IsValid hi init-IsValid) refl (omega arith)

-- One byte before each read of FR
abbrev drip : ℕ → Visits
drip zero = []
drip (suc n) = [] ∷ (sets (65 ∷ []) ∷ []) ∷ drip n

drip-Fed : (n : ℕ) → Fed n (drip n)
unfolding feeds
drip-Fed zero = enough
drip-Fed (suc n) = again refl (drip-Fed n)

abbrev dripping : Cmdev (between_bus host_reads)
dripping = record {
  base = ((init, []), (sets (65 ∷ []) ∷ []) ∷ drip 32);
  rx_buf = replicate 32 0;
  rx_size = 0;
}

rx_work_overruns_example : rx_work (between_bus host_reads) 40 dripping ≡ oops
unfolding feeds
rx_work_overruns_example =
    rx_work_overruns host_reads 40 0 (init, []) (replicate 32 0) (sets (65 ∷ []) ∷ []) (drip 32)
      (omega arith) init-IsValid refl refl (drip-Fed 32)

abbrev forty : List ℕ
forty = replicate 40 7

write_between_example :
    (base : Visited host_reads) × (Pio.write
        (between_bus host_reads)
        (λ off n. take n (drop off forty))
        41
        (some device)
        40
        5
      ≡ done (40, 45, record device { base = base }))
    × IsValid base.0.0
    × (sent_so_far base.0 ≡ sent_so_far device.base.0 ++ map u8 forty)
write_between_example =
    write_between host_reads host_reads-Wakes (λ off n. take n (drop off forty)) forty 41 5 device
      (λ off n. refl) (omega arith) (set_data-IsValid hi init-IsValid)
