-- ===== src/Linux/Pio/Send.antt =====
-- `comento_mmio_write` of week02/mmio-driver.c: what it sends, and when it does not come back.
use device_driver_on_so_c.Prelude.{ℕ, ◌+◌, ◌<◌, ◌≡◌, arith, some, List, length}
use device_driver_on_so_c.Linux.Kernel.{done, running, Bus}
use device_driver_on_so_c.Linux.Pio.{Cmdev, send_byte, write}
use device_driver_on_so_c.Linux.Writing.{send_all}
use device_driver_on_so_c.Linux.Writing.Sends.{Readable, write_loop_lem, stuck}

module _ (bus : Bus) (copy_in : ℕ → ℕ → List ℕ) (bytes : List ℕ)
    (user : Readable copy_in bytes) where
  -- With the whole of the user's buffer readable the write returns, with as many rounds as there
  -- are bytes, and hands each byte to the block once, in order.
  pub write_sends :
      (fuel : ℕ) (cmdev : Cmdev bus) (ppos : ℕ)
      → length bytes < fuel
      → write bus copy_in fuel (some cmdev) (length bytes) ppos
        ≡ done (
          length bytes,
          ppos + length bytes,
          record cmdev { base = send_all (send_byte bus) cmdev.base bytes },
        )
  unfolding write
  write_sends fuel cmdev ppos h = rw (
    write,
    write_loop_lem (send_byte bus) copy_in bytes user fuel cmdev.base 0 (length bytes) (omega arith)
        h,
  )

  -- If a write asks for more bytes than can be read of the user's buffer, no amount of fuel makes
  -- it return.
  pub write_never_returns :
      (fuel : ℕ) (cmdev : Cmdev bus) (len ppos : ℕ)
      → length bytes < len
      → write bus copy_in fuel (some cmdev) len ppos ≡ running
  unfolding write
  write_never_returns fuel cmdev len ppos h = rw (
    write,
    stuck (send_byte bus) copy_in bytes user fuel cmdev.base 0 len (omega arith) (omega arith),
  )
