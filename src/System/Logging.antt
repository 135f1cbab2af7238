-- ===== src/System/Logging.antt =====
-- The log: the driver of linux/mmio.c over the block of qemu/mmio.c, and the program of
-- qemu/ioctl.c that has the log removed.
use device_driver_on_so_c.Prelude.{
  ℕ, ◌+◌, ◌<◌, ◌≡◌, refl, sym, ap, ◌∙◌, arith, true, false, some, List, [], ◌∷◌, ◌++◌, append-nil,
  append_assoc, map, length, u8, has, raise, bit, bit_or, bit_and, bit_and_one, bit-or, bit-and,
  bit_and_two, bit_and-le, not, ◌==◌,
}
use device_driver_on_so_c.Registers.{dr, ldr, icr, int_rx, int_tx}
use device_driver_on_so_c.Qemu.Log.{MmioComento, read, write, update}
use device_driver_on_so_c.Qemu.Log.Posix.{Files, NeverFails}
use device_driver_on_so_c.Qemu.Log.Appends.{IsOpen, IsLost, write-IsOpen, write-IsLost}
use device_driver_on_so_c.Linux.Kernel.{Bus, done, irq_handled}
use device_driver_on_so_c.Linux.Log as Driver
use device_driver_on_so_c.Linux.Log.{send_byte}
use device_driver_on_so_c.Linux.Writing.{send_all}
use device_driver_on_so_c.Linux.Writing.Sends.{Readable, write_loop_lem}

raised : (r : ℕ) → has (raise r int_rx) int_rx ≡ true
unfolding bit
raised r = ground (arith, bit_and_one (bit_or r 1), bit-or 0 r 1)

line_down : (imsc : ℕ) → bit_and 0 imsc ≡ 0
line_down imsc = omega (arith, bit_and-le 0 imsc)

-- A block with only the receive interrupt pending, and enabled, has its line up, and MIS tells the
-- handler so.
pub one_pending :
    (imsc : ℕ)
    → has imsc int_rx ≡ true
    → (not (bit_and int_rx imsc == 0) ≡ true)
      × (has (bit_and int_rx imsc) int_tx ≡ false)
      × (has (bit_and int_rx imsc) int_rx ≡ true)
unfolding bit
one_pending imsc h = ground (
  arith,
  bit_and_one imsc,
  bit-and 0 1 imsc,
  bit-and 1 1 imsc,
  bit_and_one (bit_and 1 imsc),
  bit_and_two (bit_and 1 imsc),
)

module _ (files : Files) where
  open files use {Stream, logged}

  -- The block as the driver's bus. Nothing sleeps here.
  abbrev pub log_bus : Bus
  log_bus = record {
    Block = MmioComento files;
    readl = λ s offset. (read files s offset, s);
    writel = write files;
    sleep = λ s. s;
  }

  send_all-IsOpen :
      NeverFails files
      → (s : MmioComento files) (stream : Stream) (xs : List ℕ) → IsOpen files s stream
      → let s' = send_all (send_byte log_bus) s xs in
        IsOpen files s' stream × (logged s'.disk ≡ logged s.disk ++ map u8 xs)
  unfolding send_all send_byte
  send_all-IsOpen works s stream [] v = (v, sym (append-nil (logged s.disk)))
  send_all-IsOpen works s stream (x ∷ xs) v =
      let (v', now) = write-IsOpen files works s stream x v in
      let (v'', later) = send_all-IsOpen works (write files s dr x) stream xs v' in
      (
        v'',
        later
            ∙ ap (λ (l : List ℕ). l ++ map u8 xs) now
            ∙ append_assoc (logged s.disk) (u8 x ∷ []) (map u8 xs),
      )

  send_all-IsLost :
      (s : MmioComento files) (stream : Stream) (xs : List ℕ)
      → IsLost files s stream
      → let s' = send_all (send_byte log_bus) s xs in
        IsLost files s' stream × (logged s'.disk ≡ logged s.disk)
  unfolding send_all send_byte
  send_all-IsLost s stream [] v = (v, refl)
  send_all-IsLost s stream (x ∷ xs) v =
      let (v', now) = write-IsLost files s stream x v in
      let (v'', later) = send_all-IsLost (write files s dr x) stream xs v' in (v'', later ∙ now)

  module _ (copy_in : ℕ → ℕ → List ℕ) (bytes : List ℕ) (user : Readable copy_in bytes) where
    write_result :
        (fuel : ℕ) (s : MmioComento files) (ppos : ℕ)
        → length bytes < fuel
        → Driver.write log_bus copy_in fuel (some s) (length bytes) ppos
          ≡ done (length bytes, ppos + length bytes, send_all (send_byte log_bus) s bytes)
    unfolding Driver.write
    write_result fuel s ppos h =
        rw
          (
            Driver.write,
            write_loop_lem (send_byte log_bus) copy_in bytes user fuel s 0 (length bytes)
                (omega arith) h,
          )
          refl

    -- While the path of the log names the file that the block has open, and fprintf and fflush
    -- never fail, a write of a readable buffer returns its length with at most one round per byte,
    -- and the log grows by exactly the bytes written, in order.
    pub write_logs :
        NeverFails files
        → (fuel : ℕ) (s : MmioComento files) (stream : Stream) (ppos : ℕ) → length bytes < fuel
        → IsOpen files s stream
        → (s' : MmioComento files) × (Driver.write log_bus copy_in fuel (some s) (length bytes) ppos
            ≡ done (length bytes, ppos + length bytes, s'))
          × IsOpen files s' stream
          × (logged s'.disk ≡ logged s.disk ++ map u8 bytes)
    write_logs works fuel s stream ppos h v =
        let (still, grown) = send_all-IsOpen works s stream bytes v in
        (send_all (send_byte log_bus) s bytes, write_result fuel s ppos h, still, grown)

    -- When the log was removed under the block, a write of a readable buffer still returns its
    -- length, but the path holds what it held before.
    pub write_vanishes :
        (fuel : ℕ) (s : MmioComento files) (stream : Stream) (ppos : ℕ)
        → length bytes < fuel
        → IsLost files s stream
        → (s' : MmioComento files) × (Driver.write log_bus copy_in fuel (some s) (length bytes) ppos
            ≡ done (length bytes, ppos + length bytes, s'))
          × IsLost files s' stream
          × (logged s'.disk ≡ logged s.disk)
    write_vanishes fuel s stream ppos h v =
        let (still, same) = send_all-IsLost s stream bytes v in
        (send_all (send_byte log_bus) s bytes, write_result fuel s ppos h, still, same)

  -- The ioctl that removes an open log returns 0 and leaves nothing at the path, a block that
  -- writes to a file without a name, and its receive interrupt raised.
  pub ioctl_removes :
      NeverFails files
      → (s : MmioComento files) (stream : Stream) → IsOpen files s stream
      → (s' : MmioComento files) × (Driver.ioctl log_bus (some s) Driver.ioctl_remove
          ≡ done (Driver.ok, some s'))
        × IsLost files s' stream
        × (logged s'.disk ≡ [])
        × (has s'.ris int_rx ≡ true)
  unfolding Driver.ioctl write update
  ioctl_removes works s stream v = (
    write files s ldr int_rx,
    refl,
    record { opened = v.opened; unnamed = works.remove_log-Named s.disk stream (v.named) },
    works.logged-remove_log s.disk,
    raised s.ris,
  )

  -- From a block with nothing pending and the receive interrupt enabled, a removal raises the
  -- line, and the handler of linux/mmio.c returns IRQ_HANDLED, clears RIS and brings the line
  -- down.
  pub removal_acknowledged :
      (s : MmioComento files)
      → s.ris ≡ 0
      → has s.imsc int_rx ≡ true
      → (s₁ s₂ : MmioComento files) × (Driver.ioctl log_bus (some s) Driver.ioctl_remove
          ≡ done (Driver.ok, some s₁))
        × (s₁.irq ≡ true)
        × (Driver.interrupt log_bus s₁ ≡ (irq_handled, s₂))
        × (s₂.ris ≡ 0)
        × (s₂.irq ≡ false)
  unfolding Driver.ioctl Driver.interrupt write read update
  removal_acknowledged s none_pending enabled =
      let (up, no_tx, rx) = one_pending s.imsc enabled in
      let s₁ : MmioComento files = write files s ldr int_rx in
      (
        s₁,
        write files s₁ icr int_rx,
        refl,
        rw none_pending up,
        rw (none_pending, no_tx, rx) refl,
        rw none_pending refl,
        rw (none_pending, line_down s.imsc) refl,
      )
