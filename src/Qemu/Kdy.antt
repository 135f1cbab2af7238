-- ===== src/Qemu/Kdy.antt =====
-- The board of qemu/kdy.c (also week01/과제1/kdy.c): memory, an interrupt controller and two UARTs.
-- The number of a `uart_out` tells the two UARTs apart here; each drives its output 0.
pub mod Layout
use device_driver_on_so_c.Prelude.{ℕ, ◌+◌, ◌/◌, min, true, Option, some, [], ◌∷◌}
use device_driver_on_so_c.Qemu.Board as Board
use device_driver_on_so_c.Qemu.Board.Class.{MachineClass}
use device_driver_on_so_c.Qemu.Board.{
  redist, dist, uart_regs, uart_out, gic_in, begin, num_irqs, map_at, join, needs, ◌and_then◌,
  cpu_wires,
}

abbrev pub base_mem : ℕ
base_mem = 0x80000000

abbrev pub base_gic_redist : ℕ
base_gic_redist = 0x03000000

abbrev pub base_gic_dist : ℕ
base_gic_dist = 0x04000000

abbrev pub size_gic_redist : ℕ
size_gic_redist = 0x16000000

abbrev pub base_uart1 : ℕ
base_uart1 = 0x04010000

abbrev pub base_uart2 : ℕ
base_uart2 = 0x04020000

abbrev pub irq_uart1 : ℕ
irq_uart1 = 0

abbrev pub irq_uart2 : ℕ
irq_uart2 = 1

unfoldable pub create_uart1 : Board.Board → Option Board.Board
create_uart1 b =
    needs b.has_gic (join (map_at b base_uart1 uart_regs) ((uart_out 0, gic_in irq_uart1) ∷ []))

unfoldable pub create_uart2 : Board.Board → Option Board.Board
create_uart2 b =
    needs b.has_gic (join (map_at b base_uart2 uart_regs) ((uart_out 1, gic_in irq_uart2) ∷ []))

module _ (redist_size internal nr_sgis : ℕ) where
  -- The loop over the processors is that of the comento boards.
  unfoldable pub create_gic : ℕ → Board.Board → Board.Board
  unfolding cpu_wires
  create_gic cpus b =
      let redist_capacity : ℕ = size_gic_redist / redist_size in
      let b' : Board.Board = record b {
        has_gic = true;
        revision = 3;
        num_cpu = cpus;
        num_irq = num_irqs + 32;
        redist_regions = 1;
        redist_count = min cpus redist_capacity;
      } in
      join (map_at (map_at b' base_gic_dist dist) base_gic_redist redist)
        (cpu_wires redist_size internal nr_sgis cpus 0 cpus)

  -- `machkdy_init`
  unfoldable pub init : Board.MachineState → Option Board.Board
  unfolding begin create_gic create_uart1 create_uart2
  init ms =
      some (create_gic ms.cpus (begin base_mem base_gic_dist ms))
      and_then create_uart1
      and_then create_uart2

  -- `kdy_machine_class_init`, for QEMU's IF_SD
  unfoldable pub class_init : ℕ → MachineClass
  class_init if_sd = record {
    desc = "KDY board";
    init = init;
    max_cpus = 128;
    block_default_type = if_sd;
    no_cdrom = true;
    minimum_page_bits = 12;
    default_ram_id = "mach-kdy.ram";
  }
