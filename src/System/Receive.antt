-- ===== src/System/Receive.antt =====
-- From the host to a user process: the interrupt, the work that it schedules and the read of
-- week02/mmio-driver.c, over the block of week03/mmio.c.
use device_driver_on_so_c.Prelude.{
  ℕ, zero, suc, ◌+◌, ◌≤◌, ◌<◌, ◌≡◌, refl, sym, ap, ◌∙◌, arith, true, inl, inr, List, [], ◌∷◌, ◌++◌,
  append-nil, append_assoc, map, Bool-cases, has, length, take, set, ltb, u8, length-set,
}
use native.Mathlib.Nat.{suc-add}
use device_driver_on_so_c.Registers.{dr, flag_rxfe}
use device_driver_on_so_c.Qemu.Fifo.Contents as Fifo_contents
use device_driver_on_so_c.Qemu.Fifo.Contents.{used, contents}
use device_driver_on_so_c.Qemu.Mmio.{MmioComento, read}
use device_driver_on_so_c.Qemu.Mmio.Inv.{IsValid, read-IsValid}
use device_driver_on_so_c.Qemu.Mmio.Flags.{read_keeps}
use device_driver_on_so_c.Qemu.Mmio.Refine.{read-fr, contents-read-dr}
use device_driver_on_so_c.Linux.Kernel.{done}
use device_driver_on_so_c.Linux.Pio.{Cmdev, rx_loop, rx_work}
use device_driver_on_so_c.System.Machine.{Machine, machine_bus, has_rxfe}

pub take-set :
    (i x : ℕ) (buf : List ℕ) → i < length buf → take (i + 1) (set buf i x) ≡ take i buf ++ (x ∷ [])
take-set i x [] h = absurd (omega arith)
take-set zero x (y ∷ buf) h = refl
take-set (suc i) x (y ∷ buf) h =
    rw suc-add (ap (λ (l : List ℕ). y ∷ l) (take-set i x buf (omega arith)))

module _ (sleep : Machine → Machine) where
  -- What the loop of the receive work has done when it stops.
  rx_loop_lem :
      (fuel i : ℕ) (s : MmioComento) (seen buf : List ℕ)
      → IsValid s
      → used s.receive < fuel
      → i + used s.receive ≤ length buf
      → (s' : MmioComento) × (buf' : List ℕ) × (rx_loop
            (machine_bus sleep)
            fuel
            (s, seen)
            s.flag
            i
            buf
          ≡ done (i + used s.receive, buf', (s', seen)))
        × IsValid s'
        × (used s'.receive ≡ 0)
        × (s'.transmit ≡ s.transmit)
        × (length buf' ≡ length buf)
        × (take (i + used s.receive) buf' ≡ take i buf ++ map u8 (contents s.receive))
        × (s'.imsc ≡ s.imsc)
  unfolding rx_loop
  rx_loop_lem zero i s seen buf v h r = absurd (omega arith)
  rx_loop_lem (suc fuel) i s seen buf v h r = elim (Bool-cases (has s.flag flag_rxfe)) [
    | inl empty ↦
        let none_left : used s.receive ≡ 0 = (has_rxfe v).0 empty in
        (
          s,
          buf,
          ground arith,
          v,
          none_left,
          refl,
          refl,
          rw (Fifo_contents.contents_of_unused s.receive none_left, none_left, append-nil)
              (ap (λ (n : ℕ). take n buf) (omega arith)),
          refl,
        )
    | inr more ↦
        let some_left : 0 < used s.receive = (has_rxfe v).1 more in
        let (x, s₁) = read s dr in
        let (oldest, fewer, kept) = contents-read-dr v some_left in
        let buf₁ = set buf i (u8 x) in
        let (s', buf', ended, valid, none_left, kept', same, stored, mask) =
          rx_loop_lem fuel (i + 1) s₁ seen buf₁ (read-IsValid dr v) (omega arith)
            (omega (arith, length-set buf i (u8 x))) in
        let room : ltb i (length buf) ≡ true = ground arith in
        let count : i + 1 + used s₁.receive ≡ i + used s.receive = omega (arith, fewer) in
        (
          s',
          buf',
          rw (more, room, read-fr s₁) (ended ∙ ap (λ (n : ℕ). done (n, buf', (s', seen))) count),
          valid,
          none_left,
          kept' ∙ kept,
          same ∙ length-set buf i (u8 x),
          ap (λ (n : ℕ). take n buf') (sym count)
              ∙ stored
              ∙ rw (take-set i (u8 x) buf (omega arith), oldest, append_assoc) refl,
          mask ∙ (read_keeps s).0,
        )
  ]

  -- What the receive work does, IMSC included.
  pub rx_work_effect :
      (cmdev : Cmdev (machine_bus sleep))
      → IsValid cmdev.base.0
      → length cmdev.rx_buf ≡ 32
      → let s = cmdev.base.0 in
        (cmdev' : Cmdev (machine_bus sleep)) × (rx_work (machine_bus sleep) 32 cmdev ≡ done cmdev')
        × IsValid cmdev'.base.0
        × (used cmdev'.base.0.receive ≡ 0)
        × (cmdev'.base.0.transmit ≡ s.transmit)
        × (length cmdev'.rx_buf ≡ 32)
        × (cmdev'.rx_size ≡ used s.receive)
        × (take cmdev'.rx_size cmdev'.rx_buf ≡ map u8 (contents s.receive))
        × (cmdev'.base.0.imsc ≡ s.imsc)
  unfolding rx_work
  rx_work_effect cmdev v h =
      let s : MmioComento = cmdev.base.0 in
      let (s', buf', ended, valid, none_left, kept, same, stored, mask) =
        rx_loop_lem 32 0 s cmdev.base.1 cmdev.rx_buf v (omega arith) (omega arith) in
      let count : 0 + used s.receive ≡ used s.receive = omega arith in
      (
        record cmdev { base = (s', cmdev.base.1); rx_buf = buf'; rx_size = 0 + used s.receive },
        rw (rx_work, read-fr s, ended),
        valid,
        none_left,
        kept,
        same ∙ h,
        count,
        stored,
        mask,
      )

  -- Over a valid block and with the 32 bytes of rx_buf, the receive work returns, empties the
  -- receive buffer into the start of rx_buf, sets rx_size to the number of bytes, stores nothing
  -- outside rx_buf and leaves the transmit buffer alone.
  pub rx_work_receives :
      (cmdev : Cmdev (machine_bus sleep))
      → IsValid cmdev.base.0
      → length cmdev.rx_buf ≡ 32
      → let s = cmdev.base.0 in
        (cmdev' : Cmdev (machine_bus sleep)) × (rx_work (machine_bus sleep) 32 cmdev ≡ done cmdev')
        × IsValid cmdev'.base.0
        × (used cmdev'.base.0.receive ≡ 0)
        × (cmdev'.base.0.transmit ≡ s.transmit)
        × (length cmdev'.rx_buf ≡ 32)
        × (cmdev'.rx_size ≡ used s.receive)
        × (take cmdev'.rx_size cmdev'.rx_buf ≡ map u8 (contents s.receive))
  rx_work_receives cmdev v h =
      let (cmdev', worked, valid, none_left, kept, same, count, stored, mask) =
        rx_work_effect cmdev v h in
      (cmdev', worked, valid, none_left, kept, same, count, stored)
