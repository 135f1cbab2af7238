-- ===== src/Linux/Dma/Tests.antt =====
-- The drivers with DMA on concrete answers, and the theorems at them.
use device_driver_on_so_c.Linux.Table.{Hashtable, chains}
use device_driver_on_so_c.Prelude.{
  ℕ, ◌≡◌, refl, arith, true, false, none, some, List, [], ◌∷◌, take, drop, replicate,
}
use device_driver_on_so_c.Linux.Kernel.{done}
use device_driver_on_so_c.Linux.Probe.{got, failed, Module}
use device_driver_on_so_c.Linux.Dma as Dma
use device_driver_on_so_c.Linux.Dma.{DmaBuf}
use device_driver_on_so_c.Linux.Dma.Channels.{Setup, no_channel}
use device_driver_on_so_c.Linux.Dma.Bare as Bare
use device_driver_on_so_c.Linux.Dma.Bare.Same.{
  Call, start_receive, end_receive, write_call, read_call, tx_end, forget, mapped, forget_result,
  lit_calls, bare_calls, forget-calls,
}
use device_driver_on_so_c.Linux.Dma.Life.{DmaAnswers, State, probe, remove}
use device_driver_on_so_c.Linux.Dma.Life.Undo.{remove-probe_dma}
use device_driver_on_so_c.Linux.Dma.Memcpy as Memcpy
use device_driver_on_so_c.Linux.Dma.Memcpy.{CopyAnswers, interrupt}
use device_driver_on_so_c.Linux.Dma.Memcpy.Undo.{copy_keeps_channel}

abbrev hello : List ℕ
hello = 104 ∷ 101 ∷ 108 ∷ 108 ∷ 111 ∷ []

abbrev idle_buf : DmaBuf
idle_buf = record { sg_length = 4096; buf = replicate 16 0; queued = false; mapped = false }

abbrev dma_idle : Dma.Cmdev
dma_idle = record {
  rx_size = 0;
  tx = idle_buf;
  rx = idle_buf;
  led_tx = false;
  led_rx = false;
  led_data = false;
  wire = [];
}

-- A message in, a message out, and a read.
abbrev session : List Call
session =
    start_receive true true
    ∷ end_receive 4090
    ∷ write_call (λ off n. take n (drop off hello)) (λ off. true) (λ off. true) 6 5 3
    ∷ tx_end
    ∷ read_call (λ n. 0) 16 2
    ∷ []

forget-calls_example :
    mapped forget_result (lit_calls Dma.tx_callback dma_idle session)
    ≡ bare_calls Bare.tx_callback (forget dma_idle) session
unfolding Dma.tx_callback Bare.tx_callback forget
forget-calls_example = forget-calls Dma.tx_callback Bare.tx_callback (λ c. refl) session dma_idle

abbrev no_hash : Hashtable
no_hash = chains (λ minor. 0)

abbrev loaded : Module
loaded = record {
  major = 0;
  minor = 0;
  class = false;
  table = λ b. [];
  regions = λ adev. false;
  nodes = λ minor. false;
  drvdata = λ adev. none;
  handler = λ adev. false;
  wakeup = λ adev. false;
  wake_irq = λ adev. false;
  imsc = λ adev. 0;
}

abbrev no_setup : Setup
no_setup = record { chan = no_channel; has_buf = false; queued = false }

abbrev fresh : State
fresh = record {
  life = loaded;
  tx = λ adev. no_setup;
  rx = λ adev. no_setup;
  held = λ name. false;
  button = λ adev. false;
}

abbrev fine : DmaAnswers
fine = record {
  base = record {
    request_regions = 0;
    register_chrdev = got 240;
    class_create = 0;
    kzalloc = true;
    ioremap = true;
    device_create = 0;
    request_irq = 0;
  };
  tx_chan = got 2;
  rx_chan = got 5;
  dma_memory = true;
  button_irq = 0;
}

abbrev no_rx : DmaAnswers
no_rx = record fine { rx_chan = failed 19 }

remove-probe_dma_example :
    (s' s'' : State) × (probe no_hash fine 7 fresh ≡ done (0, s'))
    × (s'.held 2 ≡ true)
    × (s'.held 5 ≡ true)
    × (s'.life.imsc 7 ≡ 7)
    × (s'.life.handler 7 ≡ true)
    × (remove no_hash 7 s' ≡ done s'')
    × (s''.life.table ≡ loaded.table)
    × ((k : ℕ) → s''.life.nodes k ≡ false)
    × ((k : ℕ) → s''.held k ≡ false)
    × (s''.life.regions 7 ≡ false)
remove-probe_dma_example = remove-probe_dma no_hash fine 7 fresh 2 5 refl refl refl refl refl refl

abbrev copying : CopyAnswers
copying = record {
  dma = fine;
  rx_memory = true;
  has_irq = true;
  copy_chan = some 9;
  copy_memory = true;
  copied_before = 0;
  copied_after = 256;
  prepared = true;
}

copy_keeps_channel_example :
    (s' s'' : State) × (Memcpy.probe no_hash copying 7 fresh ≡ done (0, s'))
    × (Memcpy.remove no_hash 7 s' ≡ done s'')
    × (s''.held 2 ≡ false)
    × (s''.held 5 ≡ false)
    × (s''.held 9 ≡ true)
copy_keeps_channel_example =
    copy_keeps_channel no_hash copying 7 fresh 2 5 9 refl refl refl refl refl refl refl refl
      (omega arith) (omega arith)
