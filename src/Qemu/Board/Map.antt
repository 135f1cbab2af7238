-- ===== src/Qemu/Board/Map.antt =====
-- Where the board of week05/comento.c puts its registers.
use device_driver_on_so_c.Prelude.{
  ℕ, ◌+◌, ◌*◌, ◌/◌, ◌≤◌, ◌<◌, ◌≡◌, refl, arith, min, Bool, true, ◌&&◌, ◌||◌, some, List, [], ◌∷◌,
  leb,
}
use native.Mathlib.Nat.{le-div_iff_mul-le}
use device_driver_on_so_c.Qemu.Board as Board
use device_driver_on_so_c.Qemu.Board.{
  MachineState, Region, ram, redist, dist, uart_regs, mmio_regs, dma_regs, mmc_regs, gpio_regs,
  spi_regs, init, or_empty,
}

-- Whether no two blocks of a list share an address, for blocks of these sizes.
abbrev pub apart : (Region → ℕ) → ℕ × Region → ℕ × Region → Bool
apart size r s = leb (r.0 + size r.1) s.0 || leb (s.0 + size s.1) r.0

unfoldable pub apart_from_all : (Region → ℕ) → ℕ × Region → List (ℕ × Region) → Bool
apart_from_all size r [] = true
apart_from_all size r (s ∷ rs) = apart size r s && apart_from_all size r rs

unfoldable pub all_apart : (Region → ℕ) → List (ℕ × Region) → Bool
unfolding apart_from_all
all_apart size [] = true
all_apart size (r ∷ rs) = apart_from_all size r rs && all_apart size rs

-- The blocks that the devices of QEMU bring: a page each, 64 KiB of the distributor, and for each
-- processor's redistributor `redist_size`.
pub record Sizes (redist_size redist_count : ℕ) (size : Region → ℕ) : Type 0 where
  pub dist_fits : size dist ≤ 0x10000
  pub redist_fits : size redist ≤ redist_count * redist_size
  pub uart_fits : size uart_regs ≤ 0x1000
  pub mmio_fits : size mmio_regs ≤ 0x1000
  pub dma_fits : size dma_regs ≤ 0x1000
  pub mmc_fits : size mmc_regs ≤ 0x1000
  pub gpio_fits : size gpio_regs ≤ 0x1000
  pub spi_fits : size spi_regs ≤ 0x1000

module _ (redist_size internal nr_sgis : ℕ) where
  -- For any number of processors the board comes up without using a device before it is created,
  -- and no two of its blocks share an address, if each device needs no more than a page, the
  -- distributor no more than 64 KiB and the redistributors no more than their number times their
  -- size, which is not 0.
  pub init_apart :
      (ms : MachineState) (size : Region → ℕ)
      → 0 < redist_size
      → Sizes redist_size (min ms.cpus (0x01000000 / redist_size)) size
      → (b : Board.Board) × (init redist_size internal nr_sgis ms ≡ some b)
        × (b.redist_count ≡ min ms.cpus (0x01000000 / redist_size))
        × (all_apart size b.regions ≡ true)
  unfolding init all_apart
  init_apart ms size positive fits =
      let room : min ms.cpus (0x01000000 / redist_size) * redist_size ≤ 0x01000000 =
        (le-div_iff_mul-le positive).0 (omega arith) in
      (
        or_empty (init redist_size internal nr_sgis ms),
        refl,
        refl,
        ground (arith, room, fits.redist_fits, fits.dist_fits),
      )
