-- ===== src/Linux/Lock/Many/Drivers.antt =====
-- The calls and handlers of every driver with their lock, on as many processors.
use device_driver_on_so_c.Prelude.{each_none, ℕ, zero, suc, ◌≡◌, refl, sym, ◌⊎◌, inl, inr, [], ◌∷◌}
use device_driver_on_so_c.Linux.Lock.{Code, RwLock, wait, take_write, give_write, work}
use device_driver_on_so_c.Linux.Lock.Calls.{
  Driver, Call, pio_writes, pio_reads, pio_receives, bare_writes, bare_reads, bare_receives,
  bare_ends, lamps_writes, lamps_reads, lamps_receives, lamps_ends, memcpy_writes, memcpy_reads,
  memcpy_receives, memcpy_ends, logging_writes, logging_removes, log_writes, log_removes, Handler,
  interrupts, bare_tx, lamps_tx, memcpy_tx, logging_tx, lamps_button, memcpy_button, waits_then,
  exclusive, shared, read_sleeping, rx_work_stopping, rx_dma_work_stopping, pio_reads_sleeping,
  bare_reads_sleeping, bare_stops, bare_ends_stopping, lamps_reads_sleeping, lamps_stops,
  lamps_ends_stopping, memcpy_reads_sleeping, memcpy_stops, memcpy_ends_stopping,
  log_writes_sleeping,
}
use device_driver_on_so_c.Linux.Lock.Many.{
  ManyReaders, holds_read, holds_write, total, Machine, idle, Steps,
}
use device_driver_on_so_c.Linux.Lock.Many.Exclusive.{
  Balanced, ends, reads, writes, unreads, unwrites, waits, works, IsExclusive, Steps-IsExclusive,
}

-- Code that begins without the lock.
abbrev Whole : Code → Type 0
Whole c = Balanced c × (holds_read c ≡ 0) × (holds_write c ≡ 0)

-- Waits with work between them hold what the rest holds.
waits_then-holds :
    (n : ℕ) (rest : Code)
    → (holds_read (waits_then n rest) ≡ holds_read rest)
      × (holds_write (waits_then n rest) ≡ holds_write rest)
unfolding waits_then
waits_then-holds zero rest = (refl, refl)
waits_then-holds (suc n) rest = waits_then-holds n rest

waits_then-Balanced : (n : ℕ) (rest : Code) → Balanced rest → Balanced (waits_then n rest)
unfolding waits_then
waits_then-Balanced zero rest b = b
waits_then-Balanced (suc n) rest b = waits (works (waits_then-Balanced n rest b))

exclusive-Whole : Whole exclusive
exclusive-Whole = (writes refl refl (works (unwrites refl refl ends)), refl, refl)

shared-Whole : Whole shared
shared-Whole = (reads refl refl (works (unreads refl refl ends)), refl, refl)

work-Whole : Whole (work ∷ [])
work-Whole = (works ends, refl, refl)

waiting-Whole : (rounds : ℕ) → Whole (work ∷ waits_then rounds (wait ∷ work ∷ []))
waiting-Whole rounds =
    let (none_read, none_written) = waits_then-holds rounds (wait ∷ work ∷ []) in
    (works (waits_then-Balanced rounds _ (waits (works ends))), none_read, none_written)

sleeping_write-Whole : (n : ℕ) → Whole (take_write ∷ work ∷ waits_then n (give_write ∷ []))
sleeping_write-Whole n =
    let (none_read, writes_on) = waits_then-holds n (give_write ∷ []) in
    (
      writes none_read writes_on (works (waits_then-Balanced n _ (unwrites refl refl ends))),
      refl,
      refl,
    )

sleeping_read-Whole : Whole read_sleeping
sleeping_read-Whole = (reads refl refl (works (waits (works (unreads refl refl ends)))), refl, refl)

stopping-Whole : Whole rx_work_stopping
stopping-Whole = (writes refl refl (works (waits (works (unwrites refl refl ends)))), refl, refl)

end_stopping-Whole : Whole rx_dma_work_stopping
end_stopping-Whole = (works (waits (works ends)), refl, refl)

Call-Whole : (d : Driver) (c : Code) → Call d c → Whole c
Call-Whole d c (pio_writes bytes) = sleeping_write-Whole bytes
Call-Whole d c pio_reads_sleeping = sleeping_read-Whole
Call-Whole d c bare_reads_sleeping = sleeping_read-Whole
Call-Whole d c lamps_reads_sleeping = sleeping_read-Whole
Call-Whole d c memcpy_reads_sleeping = sleeping_read-Whole
Call-Whole d c bare_stops = stopping-Whole
Call-Whole d c lamps_stops = stopping-Whole
Call-Whole d c memcpy_stops = stopping-Whole
Call-Whole d c bare_ends_stopping = end_stopping-Whole
Call-Whole d c lamps_ends_stopping = end_stopping-Whole
Call-Whole d c memcpy_ends_stopping = end_stopping-Whole
Call-Whole d c (log_writes_sleeping copies) = sleeping_write-Whole copies
Call-Whole d c pio_reads = shared-Whole
Call-Whole d c pio_receives = exclusive-Whole
Call-Whole d c (bare_writes rounds) = waiting-Whole rounds
Call-Whole d c bare_reads = shared-Whole
Call-Whole d c bare_receives = exclusive-Whole
Call-Whole d c bare_ends = work-Whole
Call-Whole d c (lamps_writes rounds) = waiting-Whole rounds
Call-Whole d c lamps_reads = shared-Whole
Call-Whole d c lamps_receives = exclusive-Whole
Call-Whole d c lamps_ends = work-Whole
Call-Whole d c (memcpy_writes rounds) =
    let (none_read, writes_on) = waits_then-holds rounds (wait ∷ give_write ∷ []) in
    (
      writes none_read writes_on (waits_then-Balanced rounds _ (waits (unwrites refl refl ends))),
      refl,
      refl,
    )
Call-Whole d c memcpy_reads = shared-Whole
Call-Whole d c memcpy_receives = exclusive-Whole
Call-Whole d c memcpy_ends = work-Whole
Call-Whole d c (logging_writes rounds) = waiting-Whole rounds
Call-Whole d c logging_removes = exclusive-Whole
Call-Whole d c log_writes = exclusive-Whole
Call-Whole d c log_removes = exclusive-Whole

Handler-Whole : (d : Driver) (c : Code) → Handler d c → Whole c
Handler-Whole d c interrupts = work-Whole
Handler-Whole d c bare_tx = work-Whole
Handler-Whole d c lamps_tx = work-Whole
Handler-Whole d c memcpy_tx = work-Whole
Handler-Whole d c logging_tx = work-Whole
Handler-Whole d c lamps_button = exclusive-Whole
Handler-Whole d c memcpy_button = exclusive-Whole

module _ (rwlock : RwLock) (many : ManyReaders rwlock) where
  reached-IsExclusive :
      {d : Driver} {m : Machine rwlock}
      → Steps rwlock (Call d) (Handler d) (idle rwlock) m
      → IsExclusive rwlock many m
  reached-IsExclusive {d} steps =
      Steps-IsExclusive rwlock many (Call d) (Handler d) (Call-Whole d) (Handler-Whole d) steps
        start
    where
      start : IsExclusive rwlock many (idle rwlock)
      start = record { balanced = each_none; told = inl (refl, sym many.readers-zero) }

  -- However the calls and handlers of a driver, of any of the six, go on beside each other on any
  -- number of processors, with a lock that obeys its laws, at most one of them holds the lock for
  -- writing, and none holds it for reading while one does.
  pub writers_exclude :
      {d : Driver} {m : Machine rwlock}
      → Steps rwlock (Call d) (Handler d) (idle rwlock) m
      → (total holds_write m.processes ≡ 0)
        ⊎ ((total holds_write m.processes ≡ 1) × (total holds_read m.processes ≡ 0))
  writers_exclude steps = elim (reached-IsExclusive steps).told [
    | inl told ↦ inl told.0
    | inr told ↦ inr (told.0, told.1)
  ]
