-- ===== src/System/Transmit.antt =====
-- From a write of a user process to the host: the driver of week02/mmio-driver.c over the block of
-- week03/mmio.c.
use device_driver_on_so_c.Prelude.{
  ℕ, ◌+◌, ◌<◌, ◌≡◌, sym, ap, ◌∙◌, inl, inr, some, List, [], ◌∷◌, ◌++◌, append-nil, append_assoc,
  map, Bool-cases, has, length, u8,
}
use device_driver_on_so_c.Registers.{dr, flag_txff}
use device_driver_on_so_c.Qemu.Fifo.Contents.{used, contents}
use device_driver_on_so_c.Qemu.Mmio.{write}
use device_driver_on_so_c.Qemu.Mmio.Inv.{IsValid, write-IsValid, contents-put_byte}
use device_driver_on_so_c.Qemu.Mmio.Refine.{transmit-write, read-fr}
use device_driver_on_so_c.Linux.Kernel.{done}
use device_driver_on_so_c.Linux.Pio as Pio
use device_driver_on_so_c.Linux.Pio.{Cmdev, send_byte}
use device_driver_on_so_c.Linux.Writing.{send_all}
use device_driver_on_so_c.Linux.Pio.Send.{write_sends}
use device_driver_on_so_c.Linux.Writing.Sends.{Readable}
use device_driver_on_so_c.System.Machine.{Machine, machine_bus, sent_so_far, Wakes, has_txff}

-- With room in the transmit buffer a write of DR puts one byte on the way.
pub put-sent :
    (m : Machine) (x : ℕ)
    → IsValid m.0
    → used m.0.transmit < 31
    → sent_so_far (write m.0 dr x, m.1) ≡ sent_so_far m ++ (u8 x ∷ [])
put-sent m x v room =
    ap (λ f. m.1 ++ contents f) (transmit-write m.0 dr x).0
    ∙ ap (λ (l : List ℕ). m.1 ++ l) ((contents-put_byte v.tx_valid x).0 room)
    ∙ sym (append_assoc m.1 (contents m.0.transmit) (u8 x ∷ []))

module _ (sleep : Machine → Machine) (wakes : Wakes sleep) where
  send_byte-sent :
      (m : Machine) (x : ℕ)
      → IsValid m.0
      → let m' = send_byte (machine_bus sleep) m x in
        IsValid m'.0 × (sent_so_far m' ≡ sent_so_far m ++ (u8 x ∷ []))
  unfolding send_byte
  send_byte-sent m x v = elim (Bool-cases (has m.0.flag flag_txff)) [
    | inl full ↦
        rw (read-fr m.0, full)
          (
            write-IsValid dr x (wakes.stays_valid m v),
            put-sent (sleep m) x (wakes.stays_valid m v) (wakes.room m v)
                ∙ ap (λ (l : List ℕ). l ++ (u8 x ∷ [])) (wakes.conserved m v),
          )
    | inr room ↦ rw (read-fr m.0, room) (write-IsValid dr x v, put-sent m x v ((has_txff v).1 room))
  ]

  send_all-sent :
      (m : Machine) (xs : List ℕ)
      → IsValid m.0
      → let m' = send_all (send_byte (machine_bus sleep)) m xs in
        IsValid m'.0 × (sent_so_far m' ≡ sent_so_far m ++ map u8 xs)
  unfolding send_all
  send_all-sent m [] v = (v, sym (append-nil (sent_so_far m)))
  send_all-sent m (x ∷ xs) v =
      let (v', now) = send_byte-sent m x v in
      let (v'', later) = send_all-sent (send_byte (machine_bus sleep) m x) xs v' in
      (
        v'',
        later
            ∙ ap (λ (l : List ℕ). l ++ map u8 xs) now
            ∙ append_assoc (sent_so_far m) (u8 x ∷ []) (map u8 xs),
      )

  -- Over a valid block, a write of a readable buffer by the driver of week02 returns its length
  -- with at most one round per byte, and the bytes that went or go to the host grow by exactly the
  -- bytes written, in order, if a sleeping writer wakes only when there is room.
  pub write_delivers :
      (copy_in : ℕ → ℕ → List ℕ) (bytes : List ℕ) (fuel ppos : ℕ)
      (cmdev : Cmdev (machine_bus sleep))
      → Readable copy_in bytes
      → length bytes < fuel
      → IsValid cmdev.base.0
      → (base : Machine) × (Pio.write
            (machine_bus sleep)
            copy_in
            fuel
            (some cmdev)
            (length bytes)
            ppos
          ≡ done (length bytes, ppos + length bytes, record cmdev { base = base }))
        × IsValid base.0
        × (sent_so_far base ≡ sent_so_far cmdev.base ++ map u8 bytes)
  write_delivers copy_in bytes fuel ppos cmdev user h v =
      let (valid, sent) = send_all-sent cmdev.base bytes v in
      (
        send_all (send_byte (machine_bus sleep)) cmdev.base bytes,
        write_sends (machine_bus sleep) copy_in bytes user fuel cmdev ppos h,
        valid,
        sent,
      )
