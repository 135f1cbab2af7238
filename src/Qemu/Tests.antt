-- ===== src/Qemu/Tests.antt =====
-- The board and the lamps on concrete numbers, and the theorems at them.
use device_driver_on_so_c.Prelude.{ℕ, ◌≡◌, ◌/◌, arith, true, some, min, length}
use device_driver_on_so_c.Qemu.Board as Board
use device_driver_on_so_c.Qemu.Board.{
  Region, ram, redist, dist, uart_regs, mmio_regs, dma_regs, mmc_regs, gpio_regs, spi_regs, init,
  or_empty, num_irqs,
}
use device_driver_on_so_c.Qemu.Board.Map.{Sizes, all_apart}
use device_driver_on_so_c.Qemu.Board.Wiring.{
  gic_inputs, all_distinct, all_below, gic_width, init_wiring,
}
use device_driver_on_so_c.Qemu.Board.Early.{week03}
use device_driver_on_so_c.Qemu.Board.Class.{early, class_init, start, class_comes_up}

-- The sizes of QEMU's devices, for a memory of 512 MiB and four processors.
abbrev qemu_size : Region → ℕ
qemu_size ram = 0x20000000
qemu_size redist = 0x80000
qemu_size dist = 0x10000
qemu_size uart_regs = 0x1000
qemu_size mmio_regs = 0x1000
qemu_size dma_regs = 0x1000
qemu_size mmc_regs = 0x1000
qemu_size gpio_regs = 0x1000
qemu_size spi_regs = 0x1000

qemu_size-Sizes : Sizes 0x20000 (min 4 (0x01000000 / 0x20000)) qemu_size
qemu_size-Sizes = record {
  dist_fits = omega arith;
  redist_fits = omega arith;
  uart_fits = omega arith;
  mmio_fits = omega arith;
  dma_fits = omega arith;
  mmc_fits = omega arith;
  gpio_fits = omega arith;
  spi_fits = omega arith;
}

-- Four processors, 512 MiB and an image for the card
abbrev four : Board.MachineState
four = record { cpus = 4; ram_size = 0x20000000; drive = true; with_cbar = true }

init_wiring_example :
    let b = or_empty (init 0x20000 32 16 four) in
    (all_distinct (gic_inputs b.wires) ≡ true)
    × (all_below (gic_width b) (gic_inputs b.wires) ≡ true)
init_wiring_example = init_wiring 0x20000 four

class_comes_up_example :
    (b : Board.Board) × (start (class_init 2 0x20000 32 16 (early week03)) four ≡ some b)
    × (b.redist_count ≡ 4)
    × (b.num_cpu ≡ 4)
    × (length b.processors ≡ 4)
    × (all_apart qemu_size b.regions ≡ true)
unfolding class_init
class_comes_up_example =
    class_comes_up 2 0x20000 32 16 (early week03) four qemu_size (omega arith) (omega arith)
      (omega arith) qemu_size-Sizes
