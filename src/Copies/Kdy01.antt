-- ===== src/Copies/Kdy01.antt =====
-- week01/과제1/kdy.c, a copy of qemu/kdy.c
use device_driver_on_so_c.Prelude.{ℕ, Option}
use device_driver_on_so_c.Qemu.Board as Board
use device_driver_on_so_c.Qemu.Board.Class.{MachineClass}
use device_driver_on_so_c.Qemu.Kdy as Kdy

abbrev pub create_gic : ℕ → ℕ → ℕ → ℕ → Board.Board → Board.Board
create_gic = Kdy.create_gic

abbrev pub create_uart1 : Board.Board → Option Board.Board
create_uart1 = Kdy.create_uart1

abbrev pub create_uart2 : Board.Board → Option Board.Board
create_uart2 = Kdy.create_uart2

abbrev pub init : ℕ → ℕ → ℕ → Board.MachineState → Option Board.Board
init = Kdy.init

abbrev pub class_init : ℕ → ℕ → ℕ → ℕ → MachineClass
class_init = Kdy.class_init
