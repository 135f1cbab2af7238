-- ===== src/Linux/Tests.antt =====
-- The drivers on concrete requests, and the theorems at them.
use device_driver_on_so_c.Prelude.{
  replicate, ◌⊎◌, ◌≤◌, ◌&&◌, Bool, ℕ, ◌≡◌, ◌+◌, refl, arith, true, false, none, some, List, [], ◌∷◌,
  ◌++◌, if◌then◌else◌, take, drop,
}
use device_driver_on_so_c.Linux.Dma as Dma
use device_driver_on_so_c.Linux.Dma.{DmaBuf}
use device_driver_on_so_c.Linux.Dma.Inv as DmaInv
use device_driver_on_so_c.Linux.Dma.Inv.{
  Event, start_receive, end_receive, button, rx_end, handle_all, all_within, handle_all-IsValid,
}
use device_driver_on_so_c.Linux.Dma.Send.{tx_done, promised, write_arrives}
use device_driver_on_so_c.Linux.Kernel.{Bus, done, oops, running}
use device_driver_on_so_c.Linux.Table.{Table, Hashtable, chains}
use device_driver_on_so_c.Linux.Reading.{read, read_past_end}
use device_driver_on_so_c.Linux.Pio.{Cmdev, write}
use device_driver_on_so_c.Linux.Pio.Send.{write_never_returns}
use device_driver_on_so_c.Linux.Probe.{got, Answers, Module, probe, remove}
use device_driver_on_so_c.Linux.Probe.Undo.{remove-probe}

abbrev no_hash : Hashtable
no_hash = chains (λ minor. 0)

abbrev no_devices : Table ℕ
no_devices b = []

abbrev all_copied : ℕ → ℕ
all_copied n = 0

abbrev hello : List ℕ
hello = 104 ∷ 101 ∷ 108 ∷ 108 ∷ 111 ∷ 0 ∷ 0 ∷ 0 ∷ []

read_past_end_example : read all_copied hello 2 16 5 ≡ oops
read_past_end_example =
    read_past_end hello 2 16 5 all_copied (omega arith) (omega arith) (omega arith) (omega arith)

-- A block that remembers what was written to it, and has room.
abbrev recorder : Bus
recorder = record {
  Block = List ℕ;
  readl = λ d offset. (0, d);
  writel = λ d offset value. d ++ (value ∷ []);
  sleep = λ d. d;
}

abbrev idle : Cmdev recorder
idle = record { base = []; rx_buf = []; rx_size = 0 }

write_never_returns_example :
    write recorder (λ off n. take n (drop off hello)) 100 (some idle) 9 0 ≡ running
write_never_returns_example =
    write_never_returns recorder (λ off n. take n (drop off hello)) hello (λ off n. refl) 100 idle 9
      0 (omega arith)

abbrev fine : Answers
fine = record {
  request_regions = 0;
  register_chrdev = got 240;
  class_create = 0;
  kzalloc = true;
  ioremap = true;
  device_create = 0;
  request_irq = 0;
}

abbrev no_irq : Answers
no_irq = record fine { request_irq = 16 }

abbrev no_memory : Answers
no_memory = record fine { ioremap = false }

abbrev loaded : Module
loaded = record {
  major = 0;
  minor = 0;
  class = false;
  table = no_devices;
  regions = λ adev. false;
  nodes = λ minor. false;
  drvdata = λ adev. none;
  handler = λ adev. false;
  wakeup = λ adev. false;
  wake_irq = λ adev. false;
  imsc = λ adev. 0;
}

remove-probe_example :
    (m' : Module) × (remove no_hash 7 (probe no_hash true fine 7 loaded).1 ≡ done m')
    × (m'.table ≡ loaded.table)
    × ((k : ℕ) → m'.nodes k ≡ false)
    × (m'.regions 7 ≡ false)
    × (m'.wakeup 7 ≡ false)
    × (m'.wake_irq 7 ≡ false)
remove-probe_example = remove-probe no_hash true fine 7 loaded refl refl refl

abbrev idle_buf : DmaBuf
idle_buf = record { sg_length = 4096; buf = replicate 4096 0; queued = false; mapped = false }

abbrev dma_idle : Dma.Cmdev
dma_idle = record {
  rx_size = 0;
  tx = idle_buf;
  rx = idle_buf;
  led_tx = false;
  led_rx = false;
  led_data = false;
  wire = [];
}

-- A message comes in, its end is noticed, a read is made, and a second message is cut short.
abbrev day : List Event
day =
    start_receive true true
    ∷ end_receive 4000
    ∷ start_receive true false
    ∷ button
    ∷ start_receive true true
    ∷ start_receive true true
    ∷ rx_end
    ∷ []

handle_all-IsValid_example :
    (c' : Dma.Cmdev) × (handle_all dma_idle day ≡ done c') × DmaInv.IsValid c'
handle_all-IsValid_example = handle_all-IsValid day dma_idle (unfold all_within in refl) (record {
  tx_mapped = refl;
  rx_mapped = refl;
  tx_lamp = refl;
  rx_lamp = refl;
  rx_whole = refl;
  rx_in_buffer = omega arith;
})

-- A controller that takes each job.
abbrev always : ℕ → Bool
always off = true

abbrev patient : Dma.Cmdev → Dma.Cmdev
patient c = if c.tx.queued then tx_done c else c

write_arrives_example :
    (n : ℕ) × (c' : Dma.Cmdev) × (Dma.write
        (λ off n. take n (drop off hello))
        patient
        always
        always
        9
        (some dma_idle)
        8
        0
      ≡ done (n, 0 + n, some c'))
    × (n ≤ 8)
    × (c'.wire ++ drop n hello ≡ promised dma_idle ++ hello)
    × (c'.tx.queued ≡ false)
    × (c'.tx.mapped ≡ false)
    × (c'.led_tx ≡ false)
    × ((n ≡ 8) ⊎ (always n && always n ≡ false))
write_arrives_example =
    write_arrives (λ off n. take n (drop off hello)) patient (λ c. refl) always always hello
      (λ off n. refl) 9 dma_idle 0 (omega arith) (record { mapped = refl; lamp = refl })
