-- ===== src/Linux/Writing.antt =====
-- The two loops of `comento_mmio_write` in week02/mmio-driver.c and linux/mmio.c. They differ in
-- what they do with a byte, which is the parameter `send_byte`.
pub mod Sends
use device_driver_on_so_c.Prelude.{
  ℕ, zero, suc, ◌+◌, ◌-◌, min, List, [], ◌∷◌, ltb, if◌then◌else◌, length,
}
use device_driver_on_so_c.Linux.Kernel.{Outcome, done, running}

-- `sizeof(mmio_buf)`
abbrev pub chunk_size : ℕ
chunk_size = 32

module _ {ℓ} {Block : Type ℓ} (send_byte : Block → ℕ → Block) where
  -- The inner loop, over the bytes of `mmio_buf`.
  unfoldable pub send_all : Block → List ℕ → Block
  send_all d [] = d
  send_all d (x ∷ xs) = send_all (send_byte d x) xs

  -- The outer loop, from `off` bytes into the user's buffer: `buf` and `written_bytes` advance by
  -- the same steps. `copy_in off n` are the bytes that `copy_from_user` copies from `buf + off`
  -- when asked for `n`.
  unfoldable pub write_loop : (ℕ → ℕ → List ℕ) → ℕ → Block → ℕ → ℕ → Outcome (ℕ × Block)
  write_loop copy_in zero d off len = running
  write_loop copy_in (suc fuel) d off len =
      let mmio_buf = copy_in off (min len chunk_size) in
      let bytes : ℕ = length mmio_buf in
      let rest = write_loop copy_in fuel (send_all d mmio_buf) (off + bytes) (len - bytes) in
      if ltb 0 len then rest else done (off, d)
