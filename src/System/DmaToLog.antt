-- ===== src/System/DmaToLog.antt =====
-- From a write of a user process to the log of the host: the driver of week03/과제03/mmio-driver.c,
-- the DMA controller, and the block of week03/과제03/mmio.c.
use device_driver_on_so_c.Prelude.{
  ℕ, ◌+◌, ◌≤◌, ◌<◌, ◌≡◌, ◌⊎◌, sym, ap, ◌∙◌, Bool, false, ◌&&◌, some, List, [], ◌∷◌, ◌++◌,
  append-nil, append_assoc, length, take, map, u8,
}
use device_driver_on_so_c.Registers.{dr}
use device_driver_on_so_c.Qemu.Log.Posix.{Files, NeverFails}
use device_driver_on_so_c.Qemu.Log.Lines.{MmioComento, write}
use device_driver_on_so_c.Qemu.Log.Appends.{IsOpen, write-IsOpen}
use device_driver_on_so_c.Linux.Kernel.{done}
use device_driver_on_so_c.Linux.Writing.Sends.{Readable}
use device_driver_on_so_c.Linux.Dma.Bare.{Cmdev}
use device_driver_on_so_c.Linux.Dma.Bare.Send.{waits, pending, write_moves}
use device_driver_on_so_c.Linux.Dma.Logging as Driver

module _ (files : Files) where
  open files use {Stream, logged}

  -- `Moves s xs s'`: a controller that writes DR only while the transmit line is low moves `xs`.
  pub data Moves : MmioComento files → List ℕ → MmioComento files → Type 0 where
    moved : {s : MmioComento files} → Moves s [] s
    moves_byte :
        {s : MmioComento files} {x : ℕ} {xs : List ℕ} {s' : MmioComento files}
        → s.dma_tx_busy ≡ false
        → Moves (write files s dr x) xs s'
        → Moves s (x ∷ xs) s'

  -- The line never holds such a controller up.
  pub can_move :
      (xs : List ℕ) (s : MmioComento files)
      → s.dma_tx_busy ≡ false
      → (s' : MmioComento files) × Moves s xs s'
  unfolding write
  can_move [] s low = (s, moved)
  can_move (x ∷ xs) s low =
      let (s', rest) = can_move xs (write files s dr x) low in (s', moves_byte low rest)

  -- What it moves to an open log joins the log.
  pub logs_list :
      NeverFails files
      → (stream : Stream) {s s' : MmioComento files} {xs : List ℕ} → Moves s xs s'
      → IsOpen files s.comento stream
      → IsOpen files s'.comento stream
        × (logged s'.comento.disk ≡ logged s.comento.disk ++ map u8 xs)
  unfolding write
  logs_list works stream {s = s} moved v = (v, sym (append-nil (logged s.comento.disk)))
  logs_list works stream {s = s} (moves_byte {x = x} {xs = xs} low rest) v =
      let (v', now) = write-IsOpen files works s.comento stream x v in
      let (v'', later) = logs_list works stream rest v' in
      (
        v'',
        later
            ∙ ap (λ (l : List ℕ). l ++ map u8 xs) now
            ∙ append_assoc (logged s.comento.disk) (u8 x ∷ []) (map u8 xs),
      )

  module _ (copy_in : ℕ → ℕ → List ℕ) (map_works prep_works : ℕ → Bool) (bytes : List ℕ)
      (user : Readable copy_in bytes) where
    -- A write of a readable buffer by the driver of week03/과제03, whose mapping follows its job,
    -- returns, if no signal wakes the writer and no other process writes meanwhile, with at most
    -- one round per byte, and stops early only where the list cannot be mapped or the job not
    -- prepared; a controller that obeys the transmit line, low before, can then move what was on
    -- the way and the bytes counted, and if the path of the log names the open file and fprintf and
    -- fflush never fail, the log grows by exactly these, in order.
    pub dma_to_log :
        NeverFails files
        → (fuel : ℕ) (c : Cmdev) (ppos : ℕ) (s : MmioComento files) (stream : Stream)
        → length bytes < fuel
        → c.tx.mapped ≡ c.tx.queued
        → s.dma_tx_busy ≡ false
        → IsOpen files s.comento stream
        → (n : ℕ) × (c' : Cmdev) × (s' : MmioComento files) × (Driver.write copy_in waits map_works
              prep_works fuel
              (some c)
              (length bytes)
              ppos
            ≡ done (n, ppos + n, some c'))
          × (n ≤ length bytes)
          × ((n ≡ length bytes) ⊎ (map_works n && prep_works n ≡ false))
          × (c'.wire ≡ c.wire ++ (pending c ++ take n bytes))
          × Moves s (pending c ++ take n bytes) s'
          × IsOpen files s'.comento stream
          × (logged s'.comento.disk ≡ logged s.comento.disk ++ map u8 (pending c ++ take n bytes))
    dma_to_log works fuel c ppos s stream h v low named =
        let (n, c', ended, fits, sent, idle, unmapped, why) =
          write_moves copy_in map_works prep_works bytes user fuel c ppos h v in
        let (s', run) = can_move (pending c ++ take n bytes) s low in
        let (still, grown) = logs_list works stream run named in
        (n, c', s', ended, fits, why, sent, run, still, grown)
