-- ===== src/System/Steps/Tests.antt =====
-- The driver and the block in motion on concrete bytes, and the theorems at them.
use device_driver_on_so_c.Prelude.{
  ℕ, ◌+◌, ◌≡◌, ◌≤◌, refl, arith, true, false, List, [], ◌∷◌, map, u8, replicate,
}
use device_driver_on_so_c.Registers.{imsc_off, int_tx, int_rx}
use device_driver_on_so_c.Qemu.Fifo.{enqueue, is_full}
use device_driver_on_so_c.Qemu.Fifo.Contents.{used, contents}
use device_driver_on_so_c.Qemu.Mmio.{MmioComento, init, write, set_data, received, fill, update}
use device_driver_on_so_c.System.Machine.{host_reads}
use device_driver_on_so_c.System.Steps.{
  Running, at_base, handled, host_sets, line_high, kernel, Steps, no_more, then_more,
}
use device_driver_on_so_c.System.Steps.Inv.{Noticed, reset-Noticed, Steps-Noticed}
use device_driver_on_so_c.System.Steps.Arrives.{Brings, message_received}

-- The block at reset with both interrupts enabled, and the driver at rest.
abbrev idle_block : MmioComento
idle_block = write init imsc_off (int_tx + int_rx)

abbrev at_rest : Running host_reads
at_rest = record {
  device = record { base = (idle_block, []); rx_buf = replicate 32 0; rx_size = 0 };
  scheduled = false;
}

at_rest-Noticed : Noticed host_reads at_rest
at_rest-Noticed = reset-Noticed host_reads [] (replicate 32 0) 0 refl

abbrev hi : List ℕ
hi = 104 ∷ 105 ∷ []

abbrev with_hi : Running host_reads
with_hi = at_base host_reads at_rest (set_data idle_block hi, [])

hi_raises : with_hi.device.base.0.irq ≡ true
unfolding init write set_data received fill update is_full enqueue
hi_raises = refl

hi_waits : used with_hi.device.base.0.receive ≡ 2
unfolding init write set_data received fill update is_full enqueue
hi_waits = refl

abbrev two_steps : Steps host_reads at_rest (handled host_reads with_hi)
two_steps = then_more (host_sets hi) (then_more (kernel (line_high hi_raises)) no_more)

Steps-Noticed_example : Noticed host_reads (handled host_reads with_hi)
Steps-Noticed_example = Steps-Noticed host_reads two_steps at_rest-Noticed

with_hi-Noticed : Noticed host_reads with_hi
with_hi-Noticed = Steps-Noticed host_reads (then_more (host_sets hi) no_more) at_rest-Noticed

message_received_example :
    (count : ℕ) × (count ≤ 3)
    × Brings host_reads count with_hi (map u8 (contents with_hi.device.base.0.receive))
message_received_example =
    message_received host_reads with_hi with_hi-Noticed (omega (arith, hi_waits))
