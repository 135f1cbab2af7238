-- ===== src/Linux/Pio/Loop.antt =====
-- One round of the loop of the receive work of week02/mmio-driver.c, over any block.
use device_driver_on_so_c.Prelude.{
  ℕ, suc, ◌+◌, ◌≤◌, ◌<◌, ◌≡◌, refl, arith, true, false, List, has, length, set, ltb, u8,
}
use device_driver_on_so_c.Registers.{dr, fr, flag_rxfe}
use device_driver_on_so_c.Linux.Kernel.{Bus, done, oops}
use device_driver_on_so_c.Linux.Pio.{rx_loop}

module _ (bus : Bus) (fuel : ℕ) (d : bus.Block) (flag i : ℕ) (buf : List ℕ) where
  open bus use {readl}

  pub rx_loop-empty :
      has flag flag_rxfe ≡ true → rx_loop bus (suc fuel) d flag i buf ≡ done (i, buf, d)
  unfolding rx_loop
  rx_loop-empty empty = rw empty refl

  pub rx_loop-more :
      has flag flag_rxfe ≡ false
      → i < length buf
      → let (x, d') = readl d dr in
        let (flag', d'') = readl d' fr in
        rx_loop bus (suc fuel) d flag i buf ≡ rx_loop bus fuel d'' flag' (i + 1) (set buf i (u8 x))
  unfolding rx_loop
  rx_loop-more more h =
      let room : ltb i (length buf) ≡ true = ground arith in rw (rx_loop, more, room) refl

  pub rx_loop-outside :
      has flag flag_rxfe ≡ false → length buf ≤ i → rx_loop bus (suc fuel) d flag i buf ≡ oops
  unfolding rx_loop
  rx_loop-outside more h =
      let full : ltb i (length buf) ≡ false = ground arith in rw (rx_loop, more, full) refl
