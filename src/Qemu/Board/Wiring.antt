-- ===== src/Qemu/Board/Wiring.antt =====
-- How the board of week05/comento.c joins its interrupts.
use device_driver_on_so_c.Prelude.{
  ℕ, zero, suc, ◌+◌, ◌-◌, ◌*◌, ◌≤◌, ◌<◌, ◌≡◌, refl, arith, Bool, true, not, ◌&&◌, List, [], ◌∷◌,
  ◌++◌, append_assoc, ltb, ◌==◌,
}
use device_driver_on_so_c.Qemu.Board as Board
use device_driver_on_so_c.Qemu.Board.{
  MachineState, Output, Input, gic_in, dma_in, gpio_in, leds_in, cpu_irq, cpu_fiq, chip_select,
  num_irqs, init, or_empty, cpu_wires, event_wires,
}

-- The inputs of the interrupt controller that a list of wires drives.
unfoldable pub own : Input → List ℕ
own (gic_in n) = n ∷ []
own (dma_in n) = []
own (gpio_in n) = []
own (leds_in n) = []
own (cpu_irq n) = []
own (cpu_fiq n) = []
own (chip_select n) = []

unfoldable pub gic_inputs : List (Output × Input) → List ℕ
unfolding own
gic_inputs [] = []
gic_inputs (w ∷ ws) = own w.1 ++ gic_inputs ws

unfoldable pub fresh : ℕ → List ℕ → Bool
fresh n [] = true
fresh n (m ∷ ms) = not (n == m) && fresh n ms

unfoldable pub all_distinct : List ℕ → Bool
unfolding fresh
all_distinct [] = true
all_distinct (n ∷ ns) = fresh n ns && all_distinct ns

unfoldable pub all_below : ℕ → List ℕ → Bool
all_below bound [] = true
all_below bound (n ∷ ns) = ltb n bound && all_below bound ns

-- The wires of a board without processors.
abbrev device_wires : ℕ → MachineState → List (Output × Input)
device_wires redist_size ms = (or_empty (init redist_size 32 16 (record ms { cpus = 0 }))).wires

init_wires :
    (redist_size : ℕ) (ms : MachineState)
    → (or_empty (init redist_size 32 16 ms)).wires
      ≡ cpu_wires redist_size 32 16 ms.cpus 0 ms.cpus ++ device_wires redist_size ms
unfolding init event_wires
init_wires redist_size ms = simp append_assoc

fresh_above : (k : ℕ) (ns : List ℕ) → 256 ≤ k → all_below 256 ns ≡ true → fresh k ns ≡ true
unfolding all_below fresh
fresh_above k [] h b = refl
fresh_above k (n ∷ ns) h b = ground (arith, fresh_above k ns h)

later_fresh :
    (redist_size cpus i n k : ℕ) (ds : List (Output × Input))
    → k < 286 + i * 32
    → fresh k (gic_inputs ds) ≡ true
    → fresh k (gic_inputs (cpu_wires redist_size 32 16 cpus i n ++ ds)) ≡ true
unfolding fresh gic_inputs cpu_wires
later_fresh r cpus i zero k ds h f = f
later_fresh r cpus i (suc n) k ds h f =
    ground (arith, later_fresh r cpus (i + 1) n k ds (omega arith) f)

cpus_distinct :
    (redist_size cpus i n : ℕ) (ds : List (Output × Input))
    → all_distinct (gic_inputs ds) ≡ true
    → all_below 256 (gic_inputs ds) ≡ true
    → all_distinct (gic_inputs (cpu_wires redist_size 32 16 cpus i n ++ ds)) ≡ true
unfolding gic_inputs cpu_wires all_distinct
cpus_distinct r cpus i zero ds d b = d
cpus_distinct r cpus i (suc n) ds d b =
    let k : ℕ = 286 + i * 32 in
    ground (
      arith,
      later_fresh r cpus (i + 1) n k ds (omega arith)
          (fresh_above k (gic_inputs ds) (omega arith) b),
      cpus_distinct r cpus (i + 1) n ds d b,
    )

cpus_below :
    (redist_size cpus i n : ℕ) (ds : List (Output × Input))
    → i + n ≡ cpus
    → all_below (256 + 32 * cpus) (gic_inputs ds) ≡ true
    → all_below (256 + 32 * cpus) (gic_inputs (cpu_wires redist_size 32 16 cpus i n ++ ds)) ≡ true
unfolding gic_inputs cpu_wires all_below
cpus_below r cpus i zero ds e b = b
cpus_below r cpus i (suc n) ds e b = ground (arith, cpus_below r cpus (i + 1) n ds (omega arith) b)

weaker :
    (bound more : ℕ) (ns : List ℕ)
    → bound ≤ more
    → all_below bound ns ≡ true
    → all_below more ns ≡ true
unfolding all_below
weaker bound more [] h b = refl
weaker bound more (n ∷ ns) h b = ground (arith, weaker bound more ns h)

devices_distinct :
    (redist_size : ℕ) (ms : MachineState)
    → (all_distinct (gic_inputs (device_wires redist_size ms)) ≡ true)
      × (all_below 256 (gic_inputs (device_wires redist_size ms)) ≡ true)
unfolding init event_wires gic_inputs all_distinct fresh all_below
devices_distinct redist_size ms = (refl, refl)

-- A board whose processors' lines come before those of its devices, which drive each input once
-- and only inputs below 256.
pub wired :
    (redist_size cpus : ℕ) (devices wires : List (Output × Input))
    → wires ≡ cpu_wires redist_size 32 16 cpus 0 cpus ++ devices
    → all_distinct (gic_inputs devices) ≡ true
    → all_below 256 (gic_inputs devices) ≡ true
    → (all_distinct (gic_inputs wires) ≡ true)
      × (all_below (num_irqs + 32 * cpus) (gic_inputs wires) ≡ true)
wired redist_size cpus devices wires split distinct below = rw split (
  cpus_distinct redist_size cpus 0 cpus devices distinct below,
  cpus_below redist_size cpus 0 cpus devices (omega arith)
      (weaker 256 (256 + 32 * cpus) (gic_inputs devices) (omega arith) below),
)

-- The inputs of an interrupt controller of QEMU with these properties: a shared one for each line
-- beyond the first 32, and 32 for each processor.
abbrev pub gic_width : Board.Board → ℕ
gic_width b = b.num_irq - 32 + 32 * b.num_cpu

-- For any number of processors, with 32 for GIC_INTERNAL and 16 for GIC_NR_SGIS, no input of the
-- interrupt controller is driven by two lines, and the controller has each that is driven: with the
-- properties set of it, it has one input for each of its lines but the first 32, and 32 for each
-- processor.
pub init_wiring :
    (redist_size : ℕ) (ms : MachineState)
    → let b = or_empty (init redist_size 32 16 ms) in
      (all_distinct (gic_inputs b.wires) ≡ true)
      × (all_below (gic_width b) (gic_inputs b.wires) ≡ true)
unfolding init
init_wiring redist_size ms =
    let (distinct, below) = devices_distinct redist_size ms in
    wired redist_size ms.cpus (device_wires redist_size ms) _ (init_wires redist_size ms) distinct
      below
