-- ===== src/Linux/Reading.antt =====
-- `comento_mmio_read`, which the drivers of week02, week03 and week04 share but for the buffer
-- that they read: here the one of week02/mmio-driver.c.
use device_driver_on_so_c.Prelude.{
  ℕ, ◌+◌, ◌-◌, ◌≤◌, ◌<◌, ◌^◌, ◌≡◌, min, arith, List, ltb, leb, if◌then◌else◌, length, take, drop,
  u64,
}
use device_driver_on_so_c.Linux.Kernel.{Outcome, done, oops}

-- The length that is asked of `copy_to_user`. `rx_size - *ppos` is stored in a `size_t`.
pub read_len : ℕ → ℕ → ℕ → ℕ
read_len rx_size len ppos =
    if leb rx_size (u64 (len + ppos)) then u64 (2 ^ 64 + rx_size - ppos) else len

-- `uncopied n`: how many of the `n` bytes `copy_to_user` fails to copy. The result is the count,
-- the bytes that the user receives and the new `*ppos`; asking for
-- bytes from behind the buffer is an `oops`.
pub read : (ℕ → ℕ) → List ℕ → ℕ → ℕ → ℕ → Outcome (ℕ × List ℕ × ℕ)
unfolding read_len
read uncopied rx_buf rx_size len ppos =
    let n = read_len rx_size len ppos in
    let read_bytes = n - uncopied n in
    if ltb (length rx_buf) (ppos + n)
    then oops
    else done (read_bytes, take read_bytes (drop ppos rx_buf), ppos + read_bytes)

-- A read from a position within the bytes received gives the next bytes, at most as many as asked
-- for and no further than rx_size, and advances the position by them, for sizes without overflow
-- and copies that succeed.
pub read_lem :
    (rx_buf : List ℕ) (rx_size len ppos : ℕ) (uncopied : ℕ → ℕ)
    → rx_size ≤ length rx_buf
    → ppos ≤ rx_size
    → rx_size < 2 ^ 31
    → len + ppos < 2 ^ 64
    → ((n : ℕ) → uncopied n ≡ 0)
    → let n = min len (rx_size - ppos) in
      read uncopied rx_buf rx_size len ppos ≡ done (n, take n (drop ppos rx_buf), ppos + n)
unfolding read
read_lem rx_buf rx_size len ppos uncopied fits inside small wide copies =
    ground (arith, copies (read_len rx_size len ppos))

-- In particular the first read, with a length of at least all that was received, gives it all.
pub read_all :
    (rx_buf : List ℕ) (rx_size len : ℕ) (uncopied : ℕ → ℕ)
    → rx_size ≤ length rx_buf
    → rx_size ≤ len
    → len < 2 ^ 63
    → rx_size < 2 ^ 31
    → ((n : ℕ) → uncopied n ≡ 0)
    → read uncopied rx_buf rx_size len 0 ≡ done (rx_size, take rx_size rx_buf, rx_size)
unfolding read
read_all rx_buf rx_size len uncopied fits asked wide small copies =
    ground (arith, copies (read_len rx_size len 0))

-- A read whose position has passed rx_size asks for bytes from outside rx_buf: the length wraps
-- round, for sizes without overflow.
pub read_past_end :
    (rx_buf : List ℕ) (rx_size len ppos : ℕ) (uncopied : ℕ → ℕ)
    → rx_size < ppos
    → ppos < 2 ^ 63
    → length rx_buf < 2 ^ 63
    → len + ppos < 2 ^ 64
    → read uncopied rx_buf rx_size len ppos ≡ oops
unfolding read
read_past_end rx_buf rx_size len ppos uncopied past small short wide = ground arith
