-- ===== src/Qemu/Fifo.antt =====
-- `struct fifo` of week03/mmio.c: 32 bytes of storage, written at `rear` and read at `front`.
-- One slot stays free, so that a full buffer differs from an empty one.
pub mod Contents
pub mod Views
use device_driver_on_so_c.Prelude.{ℕ, ◌+◌, ◌%◌, Bool, List, ◌==◌, get_or, replicate, set, u8}

abbrev pub fifo_size : ℕ
fifo_size = 32

pub record Fifo : Type 0 where
  pub front : ℕ
  pub rear : ℕ
  pub buf : List ℕ

-- Storage as QEMU allocates it: zeroed.
abbrev pub empty_fifo : Fifo
empty_fifo = record { front = 0; rear = 0; buf = replicate 32 0 }

-- `buf[rear++] = data; rear %= COMENTO_FIFO_SIZE`; the parameter is a `uint8_t`.
unfoldable pub enqueue : Fifo → ℕ → Fifo
enqueue fifo data' = record fifo {
  rear = (fifo.rear + 1) % fifo_size;
  buf = set fifo.buf fifo.rear (u8 data');
}

-- The byte that leaves, and the buffer after it. `Contents.in_bounds` rules out a read elsewhere.
unfoldable pub dequeue : Fifo → ℕ × Fifo
dequeue fifo = (get_or fifo.buf fifo.front 0, record fifo { front = (fifo.front + 1) % fifo_size })

unfoldable pub is_full : Fifo → Bool
is_full fifo = fifo.front == (fifo.rear + 1) % fifo_size

unfoldable pub is_empty : Fifo → Bool
is_empty fifo = fifo.front == fifo.rear
