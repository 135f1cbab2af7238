-- ===== src/System/Steps/Inv.antt =====
-- No message of the host goes unnoticed by the driver of week02/mmio-driver.c.
use device_driver_on_so_c.Prelude.{
  ℕ, ◌+◌, ◌≡◌, ◌⊎◌, ◌<◌, refl, sym, ap, ◌∙◌, arith, Bool, true, false, ◌||◌, inl, inr, List, [],
  ◌∷◌, ◌++◌, length, bit, bit-le-one,
}
use device_driver_on_so_c.Registers.{dr, imsc_off, int_tx, int_rx}
use device_driver_on_so_c.Qemu.Fifo.Contents.{used}
use device_driver_on_so_c.Qemu.Mmio.{init, write, set_data}
use device_driver_on_so_c.Qemu.Mmio.Inv.{IsValid, init-IsValid, write-IsValid, set_data-IsValid}
use device_driver_on_so_c.Qemu.Mmio.Flags.{set_data_signals}
use device_driver_on_so_c.Qemu.Mmio.Frame.{Keeps, write-dr-Keeps, set_data_keeps, take_data-Keeps}
use device_driver_on_so_c.Qemu.Mmio.Refine.{read-mis, write-icr}
use device_driver_on_so_c.Linux.Kernel.{Outcome, done, oops, running}
use device_driver_on_so_c.Linux.Pio.{Cmdev, interrupt, rx_work}
use device_driver_on_so_c.System.Machine.{Machine, machine_bus, host_reads}
use device_driver_on_so_c.System.Receive.{rx_work_effect}
use device_driver_on_so_c.System.Interrupt.{
  Pending, Quiet, interrupt_tx, interrupt_rx, interrupt_none,
}
use device_driver_on_so_c.System.Steps.{
  schedules, Running, at_base, handled, Step, kernel, host_sets, host_empties, line_high, work_runs,
  sends_byte, Steps, no_more, then_more,
}

zero_or_one : (k n : ℕ) → (bit k n ≡ 0) ⊎ (bit k n ≡ 1)
zero_or_one k n = ground (arith, bit-le-one k n)

value_of : {A : Type 0} → A → Outcome A → A
value_of a (done x) = x
value_of a oops = a
value_of a running = a

pub or_true : (b : Bool) → (b || true) ≡ true
or_true true = refl
or_true false = refl

-- The handler touches no more than RIS and the line.
pub interrupt_keeps :
    (sleep : Machine → Machine) (m : Machine)
    → let s = (interrupt (machine_bus sleep) m).2.0 in
      (s.imsc ≡ m.0.imsc) × (s.receive ≡ m.0.receive)
unfolding interrupt
interrupt_keeps sleep m =
    let (ris_tx, imsc_tx, flag_tx, transmit_tx, receive_tx) = write-icr m.0 int_tx in
    let (ris_rx, imsc_rx, flag_rx, transmit_rx, receive_rx) = write-icr m.0 int_rx in
    rw (read-mis m.0) (ground arith)

module _ (sleep : Machine → Machine) where
  -- Both interrupts are enabled, and while bytes wait for the driver, either the receive interrupt
  -- is pending or the receive work is scheduled.
  pub record Noticed (r : Running sleep) : Type 0 where
    pub valid : IsValid r.device.base.0
    pub room : length r.device.rx_buf ≡ 32
    pub rx_on : bit 0 r.device.base.0.imsc ≡ 1
    pub tx_on : bit 1 r.device.base.0.imsc ≡ 1
    pub noticed :
        0 < used r.device.base.0.receive → (bit 0 r.device.base.0.ris ≡ 1) ⊎ (r.scheduled ≡ true)

  -- The block at reset, once the driver has enabled both interrupts, with the driver at rest.
  pub reset-Noticed :
      (seen rx_buf : List ℕ) (rx_size : ℕ)
      → length rx_buf ≡ 32
      → Noticed (record {
        device = record {
          base = (write init imsc_off (int_tx + int_rx), seen);
          rx_buf = rx_buf;
          rx_size = rx_size;
        };
        scheduled = false;
      })
  unfolding init write bit
  reset-Noticed seen rx_buf rx_size h = record {
    valid = write-IsValid imsc_off (int_tx + int_rx) init-IsValid;
    room = h;
    rx_on = refl;
    tx_on = refl;
    noticed = λ more. absurd (omega arith);
  }

  -- A step that leaves alone IMSC, the receive interrupt and the receive buffer.
  Keeps-Noticed :
      (r : Running sleep) (m : Machine)
      → Noticed r
      → IsValid m.0
      → Keeps r.device.base.0 m.0
      → Noticed (at_base sleep r m)
  Keeps-Noticed r m n v (imsc, rx, receive) = record {
    valid = v;
    room = n.room;
    rx_on = ap (bit 0) imsc ∙ n.rx_on;
    tx_on = ap (bit 1) imsc ∙ n.tx_on;
    noticed =
        λ more. elim (n.noticed (rw (← receive) more)) [ inl p ↦ inl (rx ∙ p) | inr q ↦ inr q ];
  }

  host_sets-Noticed :
      (r : Running sleep) (xs : List ℕ)
      → Noticed r
      → Noticed (at_base sleep r (set_data r.device.base.0 xs, r.device.base.1))
  unfolding set_data
  host_sets-Noticed r [] n = n
  host_sets-Noticed r (x ∷ xs) n = record {
    valid = set_data-IsValid (x ∷ xs) n.valid;
    room = n.room;
    rx_on = ap (bit 0) (set_data_keeps r.device.base.0 (x ∷ xs)) ∙ n.rx_on;
    tx_on = ap (bit 1) (set_data_keeps r.device.base.0 (x ∷ xs)) ∙ n.tx_on;
    noticed = λ more. inl ((set_data_signals x xs n.valid).0);
  }

  host_empties-Noticed :
      (r : Running sleep) → Noticed r → Noticed (at_base sleep r (host_reads r.device.base))
  host_empties-Noticed r n =
      let (xs, s', emptied, valid, kept) = take_data-Keeps n.valid in
      rw (host_reads, emptied) (Keeps-Noticed r (s', r.device.base.1 ++ xs) n valid kept)

  -- Which interrupt the handler finds while both are enabled.
  pub causes :
      (r : Running sleep)
      → Noticed r
      → Pending 1 r.device.base.0
        ⊎ (Quiet 1 r.device.base.0 × (Pending 0 r.device.base.0 ⊎ Quiet 0 r.device.base.0))
  causes r n = elim (zero_or_one 1 r.device.base.0.ris) [
    | inr tx ↦ inl (tx, n.tx_on)
    | inl quiet ↦ inr (
      inl quiet,
      elim (zero_or_one 0 r.device.base.0.ris) [
        | inr rx ↦ inl (rx, n.rx_on)
        | inl none ↦ inr (inl none)
      ],
    )
  ]

  -- The handler with what is left to show of it.
  handled-Noticed :
      (r : Running sleep)
      → Noticed r
      → let m = interrupt (machine_bus sleep) r.device.base in
        IsValid m.2.0
        → ((bit 0 r.device.base.0.ris ≡ 1) ⊎ (r.scheduled ≡ true)
            → (bit 0 m.2.0.ris ≡ 1) ⊎ ((r.scheduled || schedules m.1) ≡ true))
        → Noticed (handled sleep r)
  handled-Noticed r n v still =
      let (mask, receive) = interrupt_keeps sleep r.device.base in
      record {
        valid = v;
        room = n.room;
        rx_on = ap (bit 0) mask ∙ n.rx_on;
        tx_on = ap (bit 1) mask ∙ n.tx_on;
        noticed = λ more. still (n.noticed (rw (← receive) more));
      }

  pub line_high-Noticed : (r : Running sleep) → Noticed r → Noticed (handled sleep r)
  unfolding schedules
  line_high-Noticed r n = elim (causes r n) [
    | inl tx ↦
        let (ret, woke, valid, cleared, rx) = interrupt_tx sleep r.device.base n.valid tx in
        handled-Noticed r n valid (λ p. elim p [ inl q ↦ inl (rx ∙ q) | inr q ↦ inr (rw q refl) ])
    | inr (quiet, inl rx) ↦
        let (ret, asked, valid, cleared, tx, receive) =
          interrupt_rx sleep r.device.base n.valid quiet rx in
        handled-Noticed r n valid (λ p. inr (rw asked (or_true r.scheduled)))
    | inr (quiet, inr none) ↦
        let nothing = interrupt_none sleep r.device.base quiet none in
        handled-Noticed r n (rw nothing n.valid)
          (λ p. rw nothing (elim p [ inl q ↦ inl q | inr q ↦ inr (rw q refl) ]))
  ]

  work_runs-Noticed :
      (r : Running sleep) (device : Cmdev (machine_bus sleep))
      → rx_work (machine_bus sleep) 32 r.device ≡ done device
      → Noticed r
      → Noticed (record { device = device; scheduled = false })
  unfolding value_of
  work_runs-Noticed r device ended n =
      let (device', worked, valid, none_left, kept, same, count, stored, mask) =
        rx_work_effect sleep r.device n.valid n.room in
      let same_device : device' ≡ device = ap (value_of device') (sym worked ∙ ended) in
      record {
        valid = rw (← same_device) valid;
        room = rw (← same_device) same;
        rx_on = rw (← same_device) (ap (bit 0) mask ∙ n.rx_on);
        tx_on = rw (← same_device) (ap (bit 1) mask ∙ n.tx_on);
        noticed = rw (← same_device) (λ more. absurd (omega arith));
      }

  Step-Noticed : {r r' : Running sleep} → Step sleep r r' → Noticed r → Noticed r'
  Step-Noticed {r} (host_sets xs) n = host_sets-Noticed r xs n
  Step-Noticed {r} host_empties n = host_empties-Noticed r n
  Step-Noticed {r} (kernel (line_high high)) n = line_high-Noticed r n
  Step-Noticed {r} (kernel (work_runs {device = device} waiting ended)) n =
      work_runs-Noticed r device ended n
  Step-Noticed {r} (sends_byte x room) n =
      Keeps-Noticed r (write r.device.base.0 dr x, r.device.base.1) n (write-IsValid dr x n.valid)
        (write-dr-Keeps r.device.base.0 x)

  -- No message goes unnoticed: in any sequence of strings set and read by the host, bytes sent
  -- while TXFF is clear, calls of the handler and runs of the receive work, the block stays valid,
  -- both interrupts stay enabled, rx_buf keeps its 32 bytes, and it stays true that the receive
  -- interrupt is pending or the work scheduled while bytes wait.
  pub Steps-Noticed : {r r' : Running sleep} → Steps sleep r r' → Noticed r → Noticed r'
  Steps-Noticed no_more n = n
  Steps-Noticed (then_more step steps) n = Steps-Noticed steps (Step-Noticed step n)
