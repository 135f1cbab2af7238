-- ===== src/Copies/Board03.antt =====
-- week03/과제03/comento.c, a copy of week03/comento.c
use device_driver_on_so_c.Prelude.{ℕ, Bool, Option}
use device_driver_on_so_c.Qemu.Board as Board
use device_driver_on_so_c.Qemu.Board.Early.Week03 as Week03
use device_driver_on_so_c.Qemu.Board.Early.{week03, week03_init}
use device_driver_on_so_c.Qemu.Board.Class as Class

abbrev pub create_gic : ℕ → ℕ → ℕ → ℕ → Board.Board → Board.Board
create_gic = Week03.create_gic

abbrev pub create_uart : Board.Board → Option Board.Board
create_uart = Week03.create_uart

abbrev pub create_mmio : Board.Board → Option Board.Board
create_mmio = Week03.create_mmio

abbrev pub create_dma : Board.Board → Option Board.Board
create_dma = Week03.create_dma

abbrev pub create_mmc : Bool → Board.Board → Option Board.Board
create_mmc = Week03.create_mmc

abbrev pub init : ℕ → ℕ → ℕ → Board.MachineState → Option Board.Board
init = week03_init

abbrev pub class_init : ℕ → ℕ → ℕ → ℕ → Class.MachineClass
class_init = λ if_sd redist_size internal nr_sgis.
    Class.class_init if_sd redist_size internal nr_sgis (Class.early week03)
