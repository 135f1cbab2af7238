-- ===== src/Registers.antt =====
-- The register file of the comento MMIO block: the `#define`s that week03/mmio.c and the drivers
-- share, and COMENTO_LDR of the logging block.
use device_driver_on_so_c.Prelude.{ℕ}

abbrev pub dr : ℕ
dr = 0x00

abbrev pub fr : ℕ
fr = 0x04

abbrev pub ris_off : ℕ
ris_off = 0x08

abbrev pub icr : ℕ
icr = 0x0c

abbrev pub imsc_off : ℕ
imsc_off = 0x10

abbrev pub mis : ℕ
mis = 0x14

abbrev pub ldr : ℕ
ldr = 0x18

abbrev pub flag_txfe : ℕ
flag_txfe = 8

abbrev pub flag_txff : ℕ
flag_txff = 4

abbrev pub flag_rxfe : ℕ
flag_rxfe = 2

abbrev pub flag_rxff : ℕ
flag_rxff = 1

abbrev pub int_rx_empty : ℕ
int_rx_empty = 4

abbrev pub int_tx : ℕ
int_tx = 2

abbrev pub int_rx : ℕ
int_rx = 1
