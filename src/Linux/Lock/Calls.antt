-- ===== src/Linux/Lock/Calls.antt =====
-- The lock operations and the waits of each driver's functions. The copies from and to the user may
-- sleep, and so may dmaengine_terminate_sync: a call in which one does is a call of its own here.
use device_driver_on_so_c.Prelude.{ℕ, zero, suc, [], ◌∷◌}
use device_driver_on_so_c.Linux.Lock.{
  take_read, give_read, take_write, give_write, wait, work, Code,
}

-- `write_lock`, some work and `write_unlock`
abbrev pub exclusive : Code
exclusive = take_write ∷ work ∷ give_write ∷ []

abbrev pub shared : Code
shared = take_read ∷ work ∷ give_read ∷ []

-- So many waits, each followed by work, and then `rest`.
unfoldable pub waits_then : ℕ → Code → Code
waits_then zero rest = rest
waits_then (suc n) rest = wait ∷ work ∷ waits_then n rest

-- `comento_mmio_write` of week02/mmio-driver.c, for so many bytes and copies that sleep
abbrev pub pio_write : ℕ → Code
pio_write bytes = take_write ∷ work ∷ waits_then bytes (give_write ∷ [])

-- `comento_mmio_write` of week04/mmio-memcpy.c, for so many rounds and copies that
-- sleep, and the last wait
abbrev pub memcpy_write : ℕ → Code
memcpy_write rounds = take_write ∷ waits_then rounds (wait ∷ give_write ∷ [])

-- `comento_mmio_write` of week03/mmio-driver.c, week04/mmio.c and week03/과제03/mmio-driver.c
abbrev pub dma_write : ℕ → Code
dma_write rounds = work ∷ waits_then rounds (wait ∷ work ∷ [])

-- `comento_mmio_write` of linux/mmio.c, which does not wait, but where a copy may sleep
abbrev pub log_write : Code
log_write = exclusive

abbrev pub log_write_sleeping : ℕ → Code
log_write_sleeping copies = take_write ∷ work ∷ waits_then copies (give_write ∷ [])

-- `comento_mmio_ioctl` of linux/mmio.c and week03/과제03/mmio-driver.c, for COMENTO_IOCTL_REMOVE
abbrev pub ioctl : Code
ioctl = exclusive

-- `comento_mmio_read`, whose copy may sleep
abbrev pub read : Code
read = shared

abbrev pub read_sleeping : Code
read_sleeping = take_read ∷ work ∷ wait ∷ work ∷ give_read ∷ []

-- `comento_mmio_rx_work_handler`, without a job in flight and with one, which the drivers with DMA
-- terminate
abbrev pub rx_work : Code
rx_work = exclusive

abbrev pub rx_work_stopping : Code
rx_work_stopping = take_write ∷ work ∷ wait ∷ work ∷ give_write ∷ []

-- `comento_mmio_rx_dma_work_handler`, whose termination of the job may sleep

abbrev pub rx_dma_work : Code
rx_dma_work = work ∷ []

abbrev pub rx_dma_work_stopping : Code
rx_dma_work_stopping = work ∷ wait ∷ work ∷ []

-- `comento_mmio_interrupt`, and the callback of a job
abbrev pub interrupt : Code
interrupt = work ∷ []

abbrev pub tx_callback : Code
tx_callback = work ∷ []

-- `comento_button_interrupt`
abbrev pub button_interrupt : Code
button_interrupt = exclusive

pub data Driver : Type 0 where
  pio dma_bare dma_lamps dma_memcpy dma_logging logging : Driver

pub data Call : Driver → Code → Type 0 where
  pio_writes : (bytes : ℕ) → Call pio (pio_write bytes)
  pio_reads : Call pio read
  pio_reads_sleeping : Call pio read_sleeping
  pio_receives : Call pio rx_work
  bare_writes : (rounds : ℕ) → Call dma_bare (dma_write rounds)
  bare_reads : Call dma_bare read
  bare_receives : Call dma_bare rx_work
  bare_reads_sleeping : Call dma_bare read_sleeping
  bare_stops : Call dma_bare rx_work_stopping
  bare_ends_stopping : Call dma_bare rx_dma_work_stopping
  bare_ends : Call dma_bare rx_dma_work
  lamps_writes : (rounds : ℕ) → Call dma_lamps (dma_write rounds)
  lamps_reads : Call dma_lamps read
  lamps_receives : Call dma_lamps rx_work
  lamps_reads_sleeping : Call dma_lamps read_sleeping
  lamps_stops : Call dma_lamps rx_work_stopping
  lamps_ends_stopping : Call dma_lamps rx_dma_work_stopping
  lamps_ends : Call dma_lamps rx_dma_work
  memcpy_writes : (rounds : ℕ) → Call dma_memcpy (memcpy_write rounds)
  memcpy_reads : Call dma_memcpy read
  memcpy_receives : Call dma_memcpy rx_work
  memcpy_reads_sleeping : Call dma_memcpy read_sleeping
  memcpy_stops : Call dma_memcpy rx_work_stopping
  memcpy_ends_stopping : Call dma_memcpy rx_dma_work_stopping
  memcpy_ends : Call dma_memcpy rx_dma_work
  logging_writes : (rounds : ℕ) → Call dma_logging (dma_write rounds)
  logging_removes : Call dma_logging ioctl
  log_writes : Call logging log_write
  log_writes_sleeping : (copies : ℕ) → Call logging (log_write_sleeping copies)
  log_removes : Call logging ioctl

pub data Handler : Driver → Code → Type 0 where
  interrupts : {d : Driver} → Handler d interrupt
  bare_tx : Handler dma_bare tx_callback
  lamps_tx : Handler dma_lamps tx_callback
  memcpy_tx : Handler dma_memcpy tx_callback
  logging_tx : Handler dma_logging tx_callback
  lamps_button : Handler dma_lamps button_interrupt
  memcpy_button : Handler dma_memcpy button_interrupt
