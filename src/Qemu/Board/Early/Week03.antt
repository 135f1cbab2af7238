-- ===== src/Qemu/Board/Early/Week03.antt =====
-- The functions of week03/comento.c that create a device and are the same as in week05/comento.c.
use device_driver_on_so_c.Prelude.{ℕ, Bool, Option}
use device_driver_on_so_c.Qemu.Board as Board

abbrev pub create_gic : ℕ → ℕ → ℕ → ℕ → Board.Board → Board.Board
create_gic = Board.create_gic

abbrev pub create_uart : Board.Board → Option Board.Board
create_uart = Board.create_uart

abbrev pub create_mmio : Board.Board → Option Board.Board
create_mmio = Board.create_mmio

abbrev pub create_dma : Board.Board → Option Board.Board
create_dma = Board.create_dma

abbrev pub create_mmc : Bool → Board.Board → Option Board.Board
create_mmc = Board.create_mmc
