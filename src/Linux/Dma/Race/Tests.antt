-- ===== src/Linux/Dma/Race/Tests.antt =====
-- Two processes that write to the driver of week04/mmio.c.
use device_driver_on_so_c.Prelude.{
  each_none, each_more, ℕ, ◌≡◌, refl, arith, false, List, [], ◌∷◌, ◌++◌, map, replicate,
}
use device_driver_on_so_c.Linux.Dma.{Cmdev, DmaBuf, load, queue, tx_callback}
use device_driver_on_so_c.Linux.Dma.Send.{tx_done, promised, TxValid}
use device_driver_on_so_c.Linux.Dma.Race.{
  State, Steps, Writer, copied, past_wait, finds_idle, copies, queues, turns, job_ends, begins,
  has_written,
}
use device_driver_on_so_c.Linux.Dma.Race.Lost.{last_copy_wins}
use device_driver_on_so_c.Linux.Dma.Race.Apart.{StepsApart, no_step, then_step, sent, reads, Merges}
use device_driver_on_so_c.Linux.Dma.Race.Merging.{nothing_lost}

abbrev hi : List ℕ
hi = 104 ∷ 105 ∷ []

abbrev bye : List ℕ
bye = 98 ∷ 121 ∷ 101 ∷ []

abbrev empty_buf : DmaBuf
empty_buf = record { sg_length = 4096; buf = replicate 8 0; queued = false; mapped = false }

abbrev at_rest : Cmdev
at_rest = record {
  rx_size = 0;
  tx = empty_buf;
  rx = empty_buf;
  led_tx = false;
  led_rx = false;
  led_data = false;
  wire = [];
}

last_copy_wins_example :
    (c' : Cmdev) × Steps
      (record { device = at_rest; writers = map begins (hi ∷ bye ∷ []) })
      (record { device = c'; writers = map has_written (hi ∷ bye ∷ []) })
    × TxValid c'
    × (c'.tx.queued ≡ false)
    × (c'.wire ≡ 98 ∷ 121 ∷ 101 ∷ 98 ∷ 121 ∷ 101 ∷ [])
last_copy_wins_example =
    last_copy_wins at_rest (hi ∷ []) bye (record { mapped = refl; lamp = refl }) refl
      (each_more (omega arith, omega arith) each_none) (omega arith, omega arith)

abbrev hi_waits : Writer
hi_waits = record (begins hi) { off = 2; len = 0 }

abbrev hi_queued : State
hi_queued = record { device = queue (load at_rest hi); writers = hi_waits ∷ begins bye ∷ [] }

-- The one hands its round over, and the other copies when it has arrived.
abbrev hi_first : Cmdev
hi_first = load (tx_done (queue (load at_rest hi))) bye

abbrev bye_copied : Writer
bye_copied = record (begins bye) { stage = copied 3 }

one_then_other :
    StepsApart
      (record { device = at_rest; writers = map begins (hi ∷ bye ∷ []) })
      (record { device = hi_first; writers = hi_waits ∷ bye_copied ∷ [] })
unfolding queue load tx_callback
one_then_other =
    then_step (turns [] (begins hi) (begins bye ∷ []) refl (finds_idle refl (omega arith) refl))
      (omega arith)
      (then_step
        (turns [] (record (begins hi) { stage = past_wait }) (begins bye ∷ []) refl
          (copies refl refl))
        (omega arith)
        (then_step
          (turns [] (record (begins hi) { stage = copied 2 }) (begins bye ∷ []) refl
            (queues refl refl))
          (omega arith)
          (then_step (job_ends {s = hi_queued} refl) (omega arith) (
            then_step
              (turns (hi_waits ∷ []) (begins bye) [] refl (finds_idle refl (omega arith) refl))
              (omega arith)
              (then_step
                (turns (hi_waits ∷ []) (record (begins bye) { stage = past_wait }) [] refl
                  (copies refl refl))
                (omega arith) no_step)))))

nothing_lost_example :
    (b : List ℕ) × Merges (map sent (hi_waits ∷ bye_copied ∷ [])) b
    × (promised hi_first ≡ promised at_rest ++ b)
    × (map reads (hi_waits ∷ bye_copied ∷ []) ≡ map reads (map begins (hi ∷ bye ∷ [])))
    × TxValid hi_first
nothing_lost_example =
    nothing_lost at_rest hi_first (hi ∷ bye ∷ []) (hi_waits ∷ bye_copied ∷ [])
      (record { mapped = refl; lamp = refl }) one_then_other
