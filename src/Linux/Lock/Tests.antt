-- ===== src/Linux/Lock/Tests.antt =====
-- The lock on concrete calls, and the theorems at them.
use device_driver_on_so_c.Prelude.{ℕ, zero, suc, ◌≡◌, refl, Option, none, some, [], ◌∷◌}
use device_driver_on_so_c.Linux.Lock.{
  wait, give_write, work, Code, RwLock, Machine, idle, perform, Steps, no_more, then_more, called,
  interrupted, handler_acts,
}
use device_driver_on_so_c.Linux.Lock.Calls.{
  pio, dma_lamps, Call, lamps_reads, Handler, interrupts, waits_then, read, rx_work,
  button_interrupt,
}
use device_driver_on_so_c.Linux.Lock.Many as Many
use device_driver_on_so_c.Linux.Lock.Many.{ManyReaders, holds_read, holds_write}
use device_driver_on_so_c.Linux.Lock.Stuck.{
  in_pio, asleep_with_lock, sleeping_writer, button_pressed, button_waits,
}

-- A lock that counts its readers
data Count : Type 0 where
  read_by : ℕ → Count
  one_writer : Count

abbrev add_reader : Count → Option Count
add_reader (read_by n) = some (read_by (suc n))
add_reader one_writer = none

abbrev add_writer : Count → Option Count
add_writer (read_by zero) = some one_writer
add_writer (read_by (suc n)) = none
add_writer one_writer = none

abbrev drop_reader : Count → Count
drop_reader (read_by zero) = read_by 0
drop_reader (read_by (suc n)) = read_by n
drop_reader one_writer = one_writer

abbrev drop_writer : Count → Count
drop_writer (read_by n) = read_by n
drop_writer one_writer = read_by 0

abbrev counting : RwLock
counting = record {
  Lock = Count;
  unlocked = read_by 0;
  reading = read_by 1;
  writing = one_writer;
  read_lock = add_reader;
  write_lock = add_writer;
  read_unlock = drop_reader;
  write_unlock = drop_writer;
  read_lock-unlocked = refl;
  write_lock-unlocked = refl;
  read_unlock-reading = refl;
  write_unlock-writing = refl;
  write_lock-writing = refl;
}

abbrev many_counting : ManyReaders counting
many_counting = record {
  readers = read_by;
  readers-zero = refl;
  read_lock-readers = λ n. refl;
  write_lock-readers = λ n. refl;
  read_unlock-readers = λ n. refl;
  read_lock-writing = refl;
}

-- The interrupt handler of week02 comes and goes, and the receive work spins on.
abbrev three_left : Code
three_left = work ∷ waits_then 3 (give_write ∷ [])

abbrev spinning : Machine counting
spinning = asleep_with_lock counting three_left

interrupted_once : Steps counting (Call pio) (Handler pio) spinning spinning
unfolding perform
interrupted_once =
    then_more (interrupted refl interrupts) (then_more (handler_acts refl refl) no_more)

sleeping_writer_example :
    Steps counting (Call pio) (Handler pio) (idle counting) spinning
    × (spinning.process ≡ rx_work)
    × (spinning.lock ≡ one_writer)
sleeping_writer_example = sleeping_writer counting (in_pio 3) interrupted_once

-- A read is called while the handler of the button waits.
abbrev one_more_call : Machine counting
one_more_call = record (button_pressed counting) { ready = read ∷ [] }

button_waits_example :
    Steps counting (Call dma_lamps) (Handler dma_lamps) (idle counting) (button_pressed counting)
    × (one_more_call.handler ≡ button_interrupt)
    × (one_more_call.process ≡ work ∷ give_write ∷ [])
    × (one_more_call.lock ≡ one_writer)
button_waits_example =
    button_waits counting {m = one_more_call} (then_more (called lamps_reads) no_more)

-- A write of week02 has the lock, on its processor, and a read waits for it, on another.
abbrev two_calls : Many.Machine counting
two_calls = record {
  lock = one_writer;
  processes = (work ∷ wait ∷ work ∷ give_write ∷ []) ∷ read ∷ [];
}
