-- ===== src/Qemu/Board/Early/Week01.antt =====
-- The functions of week01/comento.c that create a device and do what those of week05/comento.c do:
-- `create_gic` is the same text, and for the output of the UART `create_uart` writes 0 where week05
-- writes COMENTO_IRQ_UART, which is 0.
use device_driver_on_so_c.Prelude.{ℕ, Option}
use device_driver_on_so_c.Qemu.Board as Board

abbrev pub create_gic : ℕ → ℕ → ℕ → ℕ → Board.Board → Board.Board
create_gic = Board.create_gic

abbrev pub create_uart : Board.Board → Option Board.Board
create_uart = Board.create_uart
