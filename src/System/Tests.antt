-- ===== src/System/Tests.antt =====
-- The drivers over the devices on concrete bytes, and the theorems at them.
use device_driver_on_so_c.Prelude.{
  c_string, ◌≢◌, ℕ, ◌≡◌, ◌≤◌, ◌+◌, ◌⊎◌, false, refl, inl, arith, true, false, some, List, [], ◌∷◌,
  ◌++◌, take, drop, map, u8, bit, replicate,
}
use device_driver_on_so_c.Prelude.Int.{sub_ℕ}
use device_driver_on_so_c.Qemu.Fifo.{empty_fifo, enqueue, is_full}
use device_driver_on_so_c.Qemu.Fifo.Contents.{empty_fifo-IsValid}
use device_driver_on_so_c.Qemu.Mmio.{MmioComento, set_data, received, fill, update}
use device_driver_on_so_c.Qemu.Mmio.Inv.{IsValid, set_data-IsValid}
use device_driver_on_so_c.Qemu.Scale.{SsiComento}
use device_driver_on_so_c.Qemu.Log as Log
use device_driver_on_so_c.Qemu.Log.Posix.{one_path, one_path-NeverFails}
use device_driver_on_so_c.Qemu.Log.Appends.{IsOpen}
use device_driver_on_so_c.Linux.Kernel.{done, irq_handled, irq_none}
use device_driver_on_so_c.Linux.Pio.{Cmdev, interrupt, rx_work, schedule_rx_work}
use device_driver_on_so_c.Linux.Reading as Reading
use device_driver_on_so_c.Linux.Spi.{Csdev, Shown, Stored, zero_text, show_scale, store_zero}
use device_driver_on_so_c.Linux.Log as Driver
use device_driver_on_so_c.Linux.Dma.Logging as Logging
use device_driver_on_so_c.Linux.Dma.Bare as Bare
use device_driver_on_so_c.Linux.Dma.Bare.Send.{waits}
use device_driver_on_so_c.Qemu.Log.Lines as Lines
use device_driver_on_so_c.System.DmaToLog.{Moves, dma_to_log}
use device_driver_on_so_c.System.Unanswered.{lines_bus, called, removal_unanswered}
use device_driver_on_so_c.System.Machine.{Machine, machine_bus, host_reads}
use device_driver_on_so_c.System.HostToUser.{host_to_user}
use device_driver_on_so_c.System.Weigh as Weigh
use device_driver_on_so_c.System.Weigh.{
  message, show_scale_weighs, store_zero_tares, show-store_zero,
}
use device_driver_on_so_c.System.Logging.{log_bus, write_logs}

-- An idle block with both interrupts enabled, as the driver leaves it.
abbrev ready : MmioComento
ready = record {
  irq = false;
  flag = 10;
  ris = 0;
  imsc = 3;
  transmit = empty_fifo;
  receive = empty_fifo;
  dma_tx_busy = false;
  dma_rx_busy = false;
}

ready-IsValid : IsValid ready
unfolding bit
ready-IsValid = ground (arith, empty_fifo-IsValid)

abbrev bus_device : Cmdev (machine_bus host_reads)
bus_device = record { base = (ready, []); rx_buf = replicate 32 0; rx_size = 0 }

-- Forty bytes, more than the block holds at once.
abbrev forty : List ℕ
forty = replicate 40 7

abbrev hi : List ℕ
hi = 104 ∷ 105 ∷ []

host_to_user_example :
    let called = interrupt (machine_bus host_reads) (set_data ready hi, []) in
    (called.0 ≡ irq_handled)
    × (called.1 ≡ schedule_rx_work ∷ [])
    × ((cmdev' : Cmdev (machine_bus host_reads)) × (rx_work
            (machine_bus host_reads)
            32
            (record bus_device { base = called.2 })
          ≡ done cmdev')
        × (Reading.read (λ n. 0) cmdev'.rx_buf cmdev'.rx_size 16 0 ≡ done (2, hi, 2)))
unfolding set_data received fill update is_full enqueue bit
host_to_user_example =
    host_to_user host_reads bus_device 104 (105 ∷ []) 16 (λ n. 0) ready-IsValid refl refl refl
      (omega arith) (omega arith) (omega arith) refl (inl refl) (λ n. refl)

abbrev with_hi : Machine
with_hi = (set_data ready hi, [])

abbrev with_hi_device : Cmdev (machine_bus host_reads)
with_hi_device = record bus_device { base = with_hi }

with_hi-IsValid : IsValid (with_hi.0)
with_hi-IsValid = set_data-IsValid hi ready-IsValid

abbrev grams : SsiComento
grams = record { scale = 100; offset = 250; cycle = 1 }

grams-IsValid : Weigh.IsValid grams
grams-IsValid = record { scale_width = omega arith; offset_width = omega arith }

abbrev csdev : Csdev
csdev = record { tx_buf = 0; rx_buf = (0, 0); locked = false }

show_scale_weighs_example :
    let r = show_scale message grams csdev in
    (r.0 ≡ Shown.value (sub_ℕ 100 250))
    × (r.1.scale ≡ 100)
    × (r.1.offset ≡ 250)
    × (r.2.locked ≡ false)
show_scale_weighs_example =
    show_scale_weighs message (λ s code. refl) grams csdev grams-IsValid (omega arith) (omega arith)

store_zero_tares_example :
    let r = store_zero message grams csdev (zero_text ++ (0 ∷ [])) 5 in
    (r.0 ≡ Stored.length 5)
    × (r.1.scale ≡ 100)
    × (c_string (zero_text ++ (0 ∷ [])) ≡ zero_text → r.1.offset ≡ 100)
    × (c_string (zero_text ++ (0 ∷ [])) ≢ zero_text → r.1.offset ≡ grams.offset)
    × (r.2.locked ≡ false)
store_zero_tares_example =
    store_zero_tares message (λ s code. refl) grams csdev (zero_text ++ (0 ∷ [])) 5 grams-IsValid
      refl

-- A block whose log holds "a", open in the generation 4 of its path.
abbrev logging : Log.MmioComento one_path
logging = record {
  irq = false;
  flag = 8;
  ris = 0;
  imsc = 3;
  log_file = some 4;
  disk = record { generation = 4; content = 97 ∷ [] };
}

logging-IsOpen : IsOpen one_path logging 4
logging-IsOpen = record { opened = refl; named = refl }

write_logs_example :
    (s' : Log.MmioComento one_path) × (Driver.write
        (log_bus one_path)
        (λ off n. take n (drop off forty))
        41
        (some logging)
        40
        5
      ≡ done (40, 45, s'))
    × IsOpen one_path s' 4
    × (s'.disk.content ≡ (97 ∷ []) ++ map u8 forty)
write_logs_example =
    write_logs one_path (λ off n. take n (drop off forty)) forty (λ off n. refl) one_path-NeverFails
      41 logging 4 5 (omega arith) logging-IsOpen

-- The driver and the block of week03/과제03 as they come up, with one byte in the log.
abbrev dma_device : Bare.Cmdev
dma_device = record {
  rx_size = 0;
  tx = record { sg_length = 0; buf = []; queued = false; mapped = false };
  rx = record { sg_length = 0; buf = []; queued = false; mapped = false };
  wire = [];
}

abbrev come_up : Lines.MmioComento one_path
come_up = Lines.init one_path (record { generation = 4; content = 97 ∷ [] })

come_up-IsOpen : IsOpen one_path come_up.comento 4
unfolding Lines.init Log.init
come_up-IsOpen = record { opened = refl; named = refl }

come_up_low : come_up.dma_tx_busy ≡ false
unfolding Lines.init
come_up_low = refl

dma_to_log_example :
    (n : ℕ) × (c' : Bare.Cmdev) × (s' : Lines.MmioComento one_path) × (Logging.write
        (λ off n. take n (drop off forty))
        waits
        (λ off. true)
        (λ off. true)
        41
        (some dma_device)
        40
        5
      ≡ done (n, 5 + n, some c'))
    × (n ≤ 40)
    × ((n ≡ 40) ⊎ (true ≡ false))
    × (c'.wire ≡ [] ++ ([] ++ take n forty))
    × Moves one_path come_up ([] ++ take n forty) s'
    × IsOpen one_path s'.comento 4
    × (s'.comento.disk.content ≡ come_up.comento.disk.content ++ map u8 ([] ++ take n forty))
dma_to_log_example =
    dma_to_log one_path (λ off n. take n (drop off forty)) (λ off. true) (λ off. true) forty
      (λ off n. refl) one_path-NeverFails 41 dma_device 5 come_up 4 (omega arith) refl come_up_low
      come_up-IsOpen

-- The same block with its interrupts enabled.
abbrev enabled : Lines.MmioComento one_path
enabled = record { comento = logging; dma_tx_busy = false; dma_rx_busy = false }

removal_unanswered_example :
    (s' : Lines.MmioComento one_path) × (Logging.ioctl
        (lines_bus one_path)
        (some enabled)
        Driver.ioctl_remove
      ≡ done (Driver.ok, some s'))
    × (s'.comento.irq ≡ true)
    × (called one_path 3 s' ≡ (replicate 3 irq_none, s'))
removal_unanswered_example = removal_unanswered one_path enabled 3 refl refl
