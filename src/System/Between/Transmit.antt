-- ===== src/System/Between/Transmit.antt =====
-- A write of week02/mmio-driver.c with the host and the interrupt handler in its middle.
use device_driver_on_so_c.Prelude.{
  ℕ, ◌+◌, ◌<◌, ◌≡◌, sym, ap, ◌∙◌, arith, inl, inr, Bool-cases, has, some, List, [], ◌∷◌, ◌++◌,
  append-nil, append_assoc, map, length, u8,
}
use device_driver_on_so_c.Registers.{dr, flag_txff}
use device_driver_on_so_c.Qemu.Fifo.Contents.{used}
use device_driver_on_so_c.Qemu.Mmio.{read}
use device_driver_on_so_c.Qemu.Mmio.Inv.{IsValid, write-IsValid}
use device_driver_on_so_c.Linux.Kernel.{done}
use device_driver_on_so_c.Linux.Pio as Pio
use device_driver_on_so_c.Linux.Pio.{Cmdev, send_byte}
use device_driver_on_so_c.Linux.Pio.Send.{write_sends}
use device_driver_on_so_c.Linux.Writing.{send_all}
use device_driver_on_so_c.Linux.Writing.Sends.{Readable}
use device_driver_on_so_c.System.Machine.{Machine, sent_so_far, Wakes, has_txff}
use device_driver_on_so_c.System.Transmit.{put-sent}
use device_driver_on_so_c.System.Between.{Visited, meanwhile, between_bus}
use device_driver_on_so_c.System.Between.Kept.{meanwhile-IsAfter}

module _ (sleep : Machine → Machine) (wakes : Wakes sleep) where
  -- A write of DR for which there is room puts one byte on the way.
  writel-sent :
      (b : Visited sleep) (x : ℕ)
      → IsValid b.0.0
      → used b.0.0.transmit < 31
      → let b' = (between_bus sleep).writel b dr x in
        IsValid b'.0.0 × (sent_so_far b'.0 ≡ sent_so_far b.0 ++ (u8 x ∷ []))
  writel-sent b x v room =
      let b₁ : Visited sleep = meanwhile sleep b in
      let (came, after, split) = meanwhile-IsAfter sleep b v in
      (
        write-IsValid dr x after.valid,
        put-sent b₁.0 x after.valid (omega (arith, after.more_room))
            ∙ ap (λ (l : List ℕ). l ++ (u8 x ∷ [])) after.nothing_lost,
      )

  send_byte-between :
      (b : Visited sleep) (x : ℕ)
      → IsValid b.0.0
      → let b' = send_byte (between_bus sleep) b x in
        IsValid b'.0.0 × (sent_so_far b'.0 ≡ sent_so_far b.0 ++ (u8 x ∷ []))
  unfolding send_byte read
  send_byte-between b x v =
      let b₁ : Visited sleep = meanwhile sleep b in
      let (came, after, split) = meanwhile-IsAfter sleep b v in
      elim (Bool-cases (has b₁.0.0.flag flag_txff)) [
        | inl full ↦
            let woken : Visited sleep = (sleep b₁.0, b₁.1) in
            let (valid, sent) =
              writel-sent woken x (wakes.stays_valid b₁.0 after.valid)
                (wakes.room b₁.0 after.valid) in
            rw full (
              valid,
              sent
                  ∙ ap (λ (l : List ℕ). l ++ (u8 x ∷ []))
                      (wakes.conserved b₁.0 after.valid ∙ after.nothing_lost),
            )
        | inr room ↦
            let (valid, sent) = writel-sent b₁ x after.valid ((has_txff after.valid).1 room) in
            rw room (valid, sent ∙ ap (λ (l : List ℕ). l ++ (u8 x ∷ [])) after.nothing_lost)
      ]

  send_all-between :
      (b : Visited sleep) (xs : List ℕ)
      → IsValid b.0.0
      → let b' = send_all (send_byte (between_bus sleep)) b xs in
        IsValid b'.0.0 × (sent_so_far b'.0 ≡ sent_so_far b.0 ++ map u8 xs)
  unfolding send_all
  send_all-between b [] v = (v, sym (append-nil (sent_so_far b.0)))
  send_all-between b (x ∷ xs) v =
      let (v', now) = send_byte-between b x v in
      let (v'', later) = send_all-between (send_byte (between_bus sleep) b x) xs v' in
      (
        v'',
        later
            ∙ ap (λ (l : List ℕ). l ++ map u8 xs) now
            ∙ append_assoc (sent_so_far b.0) (u8 x ∷ []) (map u8 xs),
      )

  -- With the host reading and setting the property data and the interrupt handler running any
  -- number of times before each register access, a write of a readable buffer by the driver of
  -- week02 over a valid block returns its length with at most one round per byte, and the bytes
  -- that reads of the host took out of the transmit buffer, with those still in it, grow by exactly
  -- the bytes written, in order, if a sleeping writer wakes only when there is room. (Of the bytes
  -- that a read takes out, the host gets those before the first 0.)
  pub write_between :
      (copy_in : ℕ → ℕ → List ℕ) (bytes : List ℕ) (fuel ppos : ℕ)
      (cmdev : Cmdev (between_bus sleep))
      → Readable copy_in bytes
      → length bytes < fuel
      → IsValid cmdev.base.0.0
      → (base : Visited sleep) × (Pio.write
            (between_bus sleep)
            copy_in
            fuel
            (some cmdev)
            (length bytes)
            ppos
          ≡ done (length bytes, ppos + length bytes, record cmdev { base = base }))
        × IsValid base.0.0
        × (sent_so_far base.0 ≡ sent_so_far cmdev.base.0 ++ map u8 bytes)
  write_between copy_in bytes fuel ppos cmdev user h v =
      let (valid, sent) = send_all-between cmdev.base bytes v in
      (
        send_all (send_byte (between_bus sleep)) cmdev.base bytes,
        write_sends (between_bus sleep) copy_in bytes user fuel cmdev ppos h,
        valid,
        sent,
      )
