-- ===== src/System/Transfer/Tests.antt =====
-- Transfers of a DMA controller on concrete bytes, and the theorems at them.
use device_driver_on_so_c.Prelude.{
  ℕ, ◌≡◌, ◌≤◌, ◌+◌, ◌⊎◌, take, drop, ◌<◌, refl, arith, true, false, some, List, [], ◌∷◌, ◌++◌, map,
  u8, bit, replicate,
}
use device_driver_on_so_c.Registers.{dr, icr, int_rx}
use device_driver_on_so_c.Qemu.Fifo.{empty_fifo, enqueue, dequeue, is_full, is_empty}
use device_driver_on_so_c.Qemu.Fifo.Contents.{used, contents, empty_fifo-IsValid}
use device_driver_on_so_c.Qemu.Mmio.{MmioComento, read, write, set_data, received, fill, update}
use device_driver_on_so_c.Qemu.Mmio.Inv.{IsValid, read-IsValid, write-IsValid, set_data-IsValid}
use device_driver_on_so_c.Linux.Kernel.{done}
use device_driver_on_so_c.Linux.Dma as Dma
use device_driver_on_so_c.Linux.Dma.{Cmdev, buffer_size}
use device_driver_on_so_c.Linux.Dma.Inv as DmaInv
use device_driver_on_so_c.Linux.Dma.Bare as Bare
use device_driver_on_so_c.Linux.Dma.Bare.Send.{waits}
use device_driver_on_so_c.System.Transfer.UserToHost.{dma_to_host}
use device_driver_on_so_c.System.Machine.{Machine, sent_so_far, host_reads}
use device_driver_on_so_c.System.Transfer.{
  Moves, Takes, LineExact, transfer_delivers, transfer_completes, takes_all,
}
use device_driver_on_so_c.System.Transfer.DmaToUser.{started_lem}

-- An idle block as the driver leaves it, with its three interrupts enabled.
abbrev listening : MmioComento
listening = record {
  irq = false;
  flag = 10;
  ris = 0;
  imsc = 7;
  transmit = empty_fifo;
  receive = empty_fifo;
  dma_tx_busy = false;
  dma_rx_busy = false;
}

listening-IsValid : IsValid listening
unfolding bit
listening-IsValid = ground (arith, empty_fifo-IsValid)

-- Forty bytes, more than the block holds at once.
abbrev long_list : List ℕ
long_list = replicate 40 7

abbrev after_move : Machine
after_move = (transfer_completes long_list (listening, []) listening-IsValid).0

transfer_delivers_example :
    IsValid after_move.0
    × (sent_so_far after_move ≡ sent_so_far (listening, []) ++ map u8 long_list)
transfer_delivers_example =
    transfer_delivers (transfer_completes long_list (listening, []) listening-IsValid).1
      listening-IsValid

abbrev hello : List ℕ
hello = 104 ∷ 105 ∷ []

abbrev started : Machine
started = (write (set_data listening hello) icr int_rx, [])

started-pending : IsValid started.0 × (0 < used started.0.receive)
started-pending =
    let (valid, held, some_there, imsc, tx) =
      started_lem host_reads (listening, []) 104 (105 ∷ []) listening-IsValid refl refl
        (omega arith) in
    (valid, some_there)

started-LineExact : LineExact (started.0)
started-LineExact z = absurd (omega (arith, started-pending.1))

abbrev run :
    (m' : Machine) × Takes started (contents started.0.receive) m' × (m'.0.dma_rx_busy ≡ true)
run = takes_all (used started.0.receive) started refl started-pending.0 started-LineExact

abbrev resting : Cmdev
resting = record {
  rx_size = 0;
  tx = record { sg_length = 0; buf = replicate 8 0; queued = false; mapped = false };
  rx = record { sg_length = buffer_size; buf = replicate 8 0; queued = false; mapped = false };
  led_tx = false;
  led_rx = false;
  led_data = false;
  wire = [];
}

abbrev quiet_driver : Bare.Cmdev
quiet_driver = record { rx_size = 0; tx = resting.tx; rx = resting.rx; wire = [] }

dma_to_host_example :
    (n : ℕ) × (c' : Bare.Cmdev) × (m' : Machine) × (Bare.write
        (λ off n. take n (drop off long_list))
        waits
        (λ off. true)
        (λ off. true)
        41
        (some quiet_driver)
        40
        5
      ≡ done (n, 5 + n, some c'))
    × (n ≤ 40)
    × ((n ≡ 40) ⊎ (true ≡ false))
    × (c'.wire ≡ [] ++ ([] ++ take n long_list))
    × Moves (listening, []) ([] ++ take n long_list) m'
    × IsValid m'.0
    × (sent_so_far m' ≡ sent_so_far (listening, []) ++ map u8 ([] ++ take n long_list))
dma_to_host_example =
    dma_to_host (λ off n. take n (drop off long_list)) (λ off. true) (λ off. true) long_list
      (λ off n. refl) 41 quiet_driver 5 (listening, []) (omega arith) refl listening-IsValid

-- One byte of the message is taken, and then the host sends another message.
abbrev one_taken : Machine
one_taken = ((read started.0 dr).1, [])

abbrev first_byte : List ℕ
first_byte = (read started.0 dr).0 ∷ []

abbrev again : MmioComento
again = set_data (one_taken.0) (33 ∷ [])

abbrev started_again : Machine
started_again = (write again icr int_rx, [])

again-IsValid : IsValid again
again-IsValid = set_data-IsValid (33 ∷ []) (read-IsValid dr started-pending.0)

waits_again : used started_again.0.receive ≡ 2
unfolding read write set_data received fill update is_full is_empty enqueue dequeue bit
waits_again = refl

abbrev run_again :
    (m' : Machine) × Takes started_again (contents started_again.0.receive) m'
    × (m'.0.dma_rx_busy ≡ true)
run_again =
    takes_all (used started_again.0.receive) started_again refl
      (write-IsValid icr int_rx again-IsValid) (λ z. absurd (omega (arith, waits_again)))
