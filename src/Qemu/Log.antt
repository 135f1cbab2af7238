-- ===== src/Qemu/Log.antt =====
-- The MMIO block of qemu/mmio.c, which has no buffers: a byte written to DR goes to a log file of
-- the host. The C library's files are the parameter `Files`, and the state of the host's files is
-- a part of the block's state, since only the block writes to this one.
pub mod Posix
pub mod Appends
pub mod Lines
use device_driver_on_so_c.Prelude.{
  ℕ, ◌-◌, ◌/◌, Bool, false, not, ◌&&◌, Option, none, some, List, [], ◌∷◌, ◌==◌, leb, if◌then◌else◌,
  get_or, bit_and, bit_xor, raise, u8, u32,
}
use device_driver_on_so_c.Registers.{dr, fr, ris_off, icr, imsc_off, mis, ldr, flag_txfe, int_rx}
use Posix.{Files}

-- Peripheral ID 0x001A_A002, cell ID 0xB105_F00D.
abbrev pub mmio_id : List ℕ
mmio_id = 0x02 ∷ 0xa0 ∷ 0x1a ∷ 0x00 ∷ 0x0d ∷ 0xf0 ∷ 0x05 ∷ 0xb1 ∷ []

module _ (files : Files) where
  open files use {Disk, Stream, open_log, put, remove_log}

  -- The fields that the code uses; `log_file` is none where `fopen` returned NULL.
  pub record MmioComento : Type 0 where
    pub irq : Bool
    pub flag : ℕ
    pub ris : ℕ
    pub imsc : ℕ
    pub log_file : Option Stream
    pub disk : Disk

  -- `comento_mmio_update`
  unfoldable pub update : MmioComento → MmioComento
  update s = record s { irq = not (bit_and s.ris s.imsc == 0) }

  -- `comento_mmio_read`, which changes nothing
  unfoldable pub read : MmioComento → ℕ → ℕ
  read s offset =
      if offset == dr
      then 0
      else if offset == fr
      then s.flag
      else if offset == ris_off
      then s.ris
      else if offset == imsc_off
      then s.imsc
      else if offset == mis
      then bit_and s.ris s.imsc
      else if leb 0xfe0 offset && leb offset 0xfff
      then get_or mmio_id ((offset - 0xfe0) / 4) 0
      else 0

  -- `fprintf` and `fflush` of `(char)value`, if there is a file
  unfoldable pub log_byte : MmioComento → ℕ → MmioComento
  log_byte s value = record s {
    disk = elim s.log_file [ none ↦ s.disk | some stream ↦ put s.disk stream (u8 value) ];
  }

  -- `comento_mmio_write`
  unfoldable pub write : MmioComento → ℕ → ℕ → MmioComento
  unfolding update log_byte
  write s offset value =
      if offset == dr
      then update (log_byte s value)
      else if offset == icr
      then update (record s { ris = u32 (bit_xor s.ris value) })
      else if offset == imsc_off
      then update (record s { imsc = u32 value })
      else if offset == ldr
      then update (record s { disk = remove_log s.disk; ris = raise s.ris int_rx })
      else s

  -- `comento_mmio_init`: the object is zeroed before.
  unfoldable pub init : Disk → MmioComento
  init disk =
      let (log_file, disk') = open_log disk in
      record { irq = false; flag = flag_txfe; ris = 0; imsc = 0; log_file = log_file; disk = disk' }
