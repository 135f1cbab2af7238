-- ===== src/System/Steps/Arrives.antt =====
-- What the host sends arrives in the receive buffer of week02/mmio-driver.c: the interrupts and the
-- work that take it there, in whatever state the driver and the block are.
use device_driver_on_so_c.Prelude.{
  ℕ, zero, suc, ◌≡◌, ◌⊎◌, ◌<◌, ◌≤◌, refl, sym, ap, ◌∙◌, arith, true, false, inl, inr, List, map,
  take, u8, length, length-map, bit, bit-and, bit_and,
}
use device_driver_on_so_c.Qemu.Fifo.Contents.{used, contents, length-contents}
use device_driver_on_so_c.Qemu.Mmio.{MmioComento}
use device_driver_on_so_c.Qemu.Mmio.Inv.{IsValid}
use device_driver_on_so_c.System.Machine.{Machine}
use device_driver_on_so_c.System.Receive.{rx_work_effect}
use device_driver_on_so_c.System.Interrupt.{Pending, Quiet, interrupt_tx, interrupt_rx}
use device_driver_on_so_c.System.Steps.{
  schedules, Running, handled, line_high, work_runs, ServedIn, at_once, next,
}
use device_driver_on_so_c.System.Steps.Inv.{
  Noticed, interrupt_keeps, line_high-Noticed, causes, or_true,
}

zero_or_more : (n : ℕ) → (n ≡ 0) ⊎ (0 < n)
zero_or_more zero = inl refl
zero_or_more (suc n) = inr (omega arith)

bit-zero : (k : ℕ) → bit k 0 ≡ 0
unfolding bit
bit-zero zero = refl
bit-zero (suc k) = bit-zero k

-- A pending interrupt holds the line high.
Pending-high : (k : ℕ) {s : MmioComento} → IsValid s → Pending k s → s.irq ≡ true
Pending-high k {s} v p = elim (zero_or_more (bit_and s.ris s.imsc)) [
  | inl none ↦ absurd (omega (arith, bit-and k s.ris s.imsc, ap (bit k) none, bit-zero k, p.0, p.1))
  | inr some_set ↦ ground arith
]

module _ (sleep : Machine → Machine) where
  -- So many steps of the kernel alone, from `r` on, bring exactly `bytes` into the driver's buffer
  -- and empty the block's.
  abbrev pub Brings : ℕ → Running sleep → List ℕ → Type 0
  Brings count r bytes =
      (r' : Running sleep) × ServedIn sleep count r r'
      × (used r'.device.base.0.receive ≡ 0)
      × (r'.device.rx_size ≡ length bytes)
      × (take r'.device.rx_size r'.device.rx_buf ≡ bytes)

  work-Brings :
      (r : Running sleep)
      → Noticed sleep r
      → r.scheduled ≡ true
      → Brings 1 r (map u8 (contents r.device.base.0.receive))
  work-Brings r n waiting =
      let (device, worked, valid, none_left, kept, same, count, stored, mask) =
        rx_work_effect sleep r.device n.valid n.room in
      (
        record { device = device; scheduled = false },
        next (work_runs waiting worked) at_once,
        none_left,
        count
            ∙ sym (
                length-map (contents r.device.base.0.receive) u8
                ∙ length-contents r.device.base.0.receive),
        stored,
      )

  Pending-Brings :
      (r : Running sleep)
      → Noticed sleep r
      → Quiet 1 r.device.base.0
      → Pending 0 r.device.base.0
      → Brings 2 r (map u8 (contents r.device.base.0.receive))
  unfolding schedules
  Pending-Brings r n quiet rx =
      let (ret, asked, valid, cleared, tx, receive) =
        interrupt_rx sleep r.device.base n.valid quiet rx in
      let (r', steps, none_left, count, stored) =
        work-Brings (handled sleep r) (line_high-Noticed sleep r n)
          (rw asked (or_true r.scheduled)) in
      let same = ap (λ f. map u8 (contents f)) receive in
      (
        r',
        next (line_high (Pending-high 0 n.valid rx)) steps,
        none_left,
        count ∙ ap length same,
        stored ∙ same,
      )

  -- Whenever bytes wait in a state of the driver of week02 and the block in which, with the
  -- invariant of the block, rx_buf of 32 bytes and both interrupts enabled, waiting bytes come with
  -- a pending receive interrupt or scheduled work, at most three steps of the kernel alone, calls
  -- of the handler while the line is high and runs of scheduled work, bring exactly these bytes
  -- into rx_buf, set rx_size to their number and leave none waiting.
  pub message_received :
      (r : Running sleep)
      → Noticed sleep r
      → 0 < used r.device.base.0.receive
      → (count : ℕ) × (count ≤ 3) × Brings count r (map u8 (contents r.device.base.0.receive))
  message_received r n more = elim (n.noticed more) [
    | inr waiting ↦ (1, omega arith, work-Brings r n waiting)
    | inl rx ↦ elim (causes sleep r n) [
      | inr (quiet, which) ↦ (2, omega arith, Pending-Brings r n quiet (rx, n.rx_on))
      | inl tx ↦
          let (ret, woke, valid, cleared, kept) = interrupt_tx sleep r.device.base n.valid tx in
          let (mask, receive) = interrupt_keeps sleep r.device.base in
          let n' = line_high-Noticed sleep r n in
          let (r', steps, none_left, count, stored) =
            Pending-Brings (handled sleep r) n' (inl cleared) (kept ∙ rx, n'.rx_on) in
          let same = ap (λ f. map u8 (contents f)) receive in
          (
            3,
            omega arith,
            (
              r',
              next (line_high (Pending-high 1 n.valid tx)) steps,
              none_left,
              count ∙ ap length same,
              stored ∙ same,
            ),
          )
    ]
  ]
