-- ===== src/Qemu/Log/Appends.antt =====
-- What the log of qemu/mmio.c holds after a run of bytes, before and after it is removed.
use device_driver_on_so_c.Prelude.{ℕ, ◌≡◌, refl, some, [], ◌∷◌, ◌++◌, u8}
use device_driver_on_so_c.Registers.{dr}
use device_driver_on_so_c.Qemu.Log.{MmioComento, write, log_byte, update}
use device_driver_on_so_c.Qemu.Log.Posix.{Files, NeverFails}

module _ (files : Files) where
  open files use {Disk, Stream, put, logged, Named, put-unnamed}

  -- The block has opened the log, and the log's path still names the file that it writes to.
  pub record IsOpen (s : MmioComento files) (stream : Stream) : Type 0 where
    pub opened : s.log_file ≡ some stream
    pub named : Named s.disk stream

  -- The block writes to a file that the path does not name any more.
  pub record IsLost (s : MmioComento files) (stream : Stream) : Type 0 where
    pub opened : s.log_file ≡ some stream
    pub unnamed : ¬ Named s.disk stream

  pub write-IsOpen :
      NeverFails files
      → (s : MmioComento files) (stream : Stream) (x : ℕ) → IsOpen s stream
      → let s' = write files s dr x in
        IsOpen s' stream × (logged s'.disk ≡ logged s.disk ++ (u8 x ∷ []))
  unfolding write log_byte update
  write-IsOpen works s stream x v =
      let (grown, still) = works.put-named s.disk stream (u8 x) (v.named) in
      rw v.opened (record { opened = refl; named = still }, grown)

  pub write-IsLost :
      (s : MmioComento files) (stream : Stream) (x : ℕ)
      → IsLost s stream
      → let s' = write files s dr x in IsLost s' stream × (logged s'.disk ≡ logged s.disk)
  unfolding write log_byte update
  write-IsLost s stream x v =
      let (same, still) = put-unnamed s.disk stream (u8 x) (v.unnamed) in
      rw v.opened (record { opened = refl; unnamed = still }, same)
