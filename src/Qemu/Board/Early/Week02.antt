-- ===== src/Qemu/Board/Early/Week02.antt =====
-- The functions of week02/comento.c that create a device and are the same as in week05/comento.c.
use device_driver_on_so_c.Prelude.{ℕ, Option}
use device_driver_on_so_c.Qemu.Board as Board

abbrev pub create_gic : ℕ → ℕ → ℕ → ℕ → Board.Board → Board.Board
create_gic = Board.create_gic

abbrev pub create_uart : Board.Board → Option Board.Board
create_uart = Board.create_uart
