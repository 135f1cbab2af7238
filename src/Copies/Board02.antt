-- ===== src/Copies/Board02.antt =====
-- week02/과제02/comento.c, a copy of week02/comento.c
use device_driver_on_so_c.Prelude.{ℕ, Option}
use device_driver_on_so_c.Qemu.Board as Board
use device_driver_on_so_c.Qemu.Board.Early.Week02 as Week02
use device_driver_on_so_c.Qemu.Board.Early.{week02, week02_init, create_mmio_alone}
use device_driver_on_so_c.Qemu.Board.Class as Class

abbrev pub create_gic : ℕ → ℕ → ℕ → ℕ → Board.Board → Board.Board
create_gic = Week02.create_gic

abbrev pub create_uart : Board.Board → Option Board.Board
create_uart = Week02.create_uart

abbrev pub create_mmio : Board.Board → Option Board.Board
create_mmio = create_mmio_alone

abbrev pub init : ℕ → ℕ → ℕ → Board.MachineState → Option Board.Board
init = week02_init

abbrev pub class_init : ℕ → ℕ → ℕ → ℕ → Class.MachineClass
class_init = λ if_sd redist_size internal nr_sgis.
    Class.class_init if_sd redist_size internal nr_sgis (Class.early week02)
