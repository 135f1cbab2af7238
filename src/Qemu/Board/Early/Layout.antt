-- ===== src/Qemu/Board/Early/Layout.antt =====
-- Where the boards of week01 to week04 put their registers, and how they join their interrupts.
use device_driver_on_so_c.Prelude.{
  ℕ, ◌+◌, ◌*◌, ◌/◌, ◌≤◌, ◌<◌, ◌≡◌, refl, arith, min, true, some, List, ◌++◌, append_assoc,
}
use native.Mathlib.Nat.{le-div_iff_mul-le}
use device_driver_on_so_c.Qemu.Board as Board
use device_driver_on_so_c.Qemu.Board.{
  MachineState, Region, Output, Input, num_irqs, or_empty, cpu_wires, event_wires,
}
use device_driver_on_so_c.Qemu.Board.Map.{Sizes, apart_from_all, all_apart}
use device_driver_on_so_c.Qemu.Board.Wiring.{
  own, gic_inputs, fresh, all_distinct, all_below, wired, gic_width,
}
use device_driver_on_so_c.Qemu.Board.Early.{
  Week, week01, week02, week03, week04, week01_init, week02_init, week03_init, week04_init,
  early_init,
}

-- The redistributors fit their space.
room :
    (redist_size cpus : ℕ)
    → 0 < redist_size
    → min cpus (0x01000000 / redist_size) * redist_size ≤ 0x01000000
room redist_size cpus positive = (le-div_iff_mul-le positive).0 (omega arith)

-- The board of each of the weeks 1 to 4 comes up, for any number of processors, without using a
-- device before it is created, and no two of its blocks share an address, if each device needs no
-- more than a page, the distributor no more than 64 KiB and the redistributors no more than their
-- number times their size, which is not 0.
pub early_init_apart :
    (redist_size internal nr_sgis : ℕ) (week : Week) (ms : MachineState) (size : Region → ℕ)
    → 0 < redist_size
    → Sizes redist_size (min ms.cpus (0x01000000 / redist_size)) size
    → (b : Board.Board) × (early_init redist_size internal nr_sgis week ms ≡ some b)
      × (all_apart size b.regions ≡ true)
unfolding early_init all_apart apart_from_all
early_init_apart redist_size internal nr_sgis week01 ms size positive fits = (
  or_empty (early_init redist_size internal nr_sgis week01 ms),
  refl,
  ground (arith, room redist_size ms.cpus positive, fits.redist_fits, fits.dist_fits),
)
early_init_apart redist_size internal nr_sgis week02 ms size positive fits = (
  or_empty (early_init redist_size internal nr_sgis week02 ms),
  refl,
  ground (arith, room redist_size ms.cpus positive, fits.redist_fits, fits.dist_fits),
)
early_init_apart redist_size internal nr_sgis week03 ms size positive fits = (
  or_empty (early_init redist_size internal nr_sgis week03 ms),
  refl,
  ground (arith, room redist_size ms.cpus positive, fits.redist_fits, fits.dist_fits),
)
early_init_apart redist_size internal nr_sgis week04 ms size positive fits = (
  or_empty (early_init redist_size internal nr_sgis week04 ms),
  refl,
  ground (arith, room redist_size ms.cpus positive, fits.redist_fits, fits.dist_fits),
)

-- The wires of a week's board without processors.
abbrev device_wires : ℕ → Week → MachineState → List (Output × Input)
device_wires redist_size week ms =
    (or_empty (early_init redist_size 32 16 week (record ms { cpus = 0 }))).wires

early_init_wires :
    (redist_size : ℕ) (week : Week) (ms : MachineState)
    → (or_empty (early_init redist_size 32 16 week ms)).wires
      ≡ cpu_wires redist_size 32 16 ms.cpus 0 ms.cpus ++ device_wires redist_size week ms
unfolding early_init event_wires week01_init week02_init week03_init week04_init
early_init_wires redist_size week01 ms = refl
early_init_wires redist_size week02 ms = simp append_assoc
early_init_wires redist_size week03 ms = simp append_assoc
early_init_wires redist_size week04 ms = simp append_assoc

devices_distinct :
    (redist_size : ℕ) (week : Week) (ms : MachineState)
    → (all_distinct (gic_inputs (device_wires redist_size week ms)) ≡ true)
      × (all_below 256 (gic_inputs (device_wires redist_size week ms)) ≡ true)
unfolding early_init event_wires own gic_inputs all_distinct fresh all_below
devices_distinct redist_size week01 ms = (refl, refl)
devices_distinct redist_size week02 ms = (refl, refl)
devices_distinct redist_size week03 ms = (refl, refl)
devices_distinct redist_size week04 ms = (refl, refl)

early_init_width :
    (redist_size : ℕ) (week : Week) (ms : MachineState)
    → gic_width (or_empty (early_init redist_size 32 16 week ms)) ≡ num_irqs + 32 * ms.cpus
unfolding early_init week01_init week02_init week03_init week04_init
early_init_width redist_size week01 ms = refl
early_init_width redist_size week02 ms = refl
early_init_width redist_size week03 ms = refl
early_init_width redist_size week04 ms = refl

-- On the board of each week and for any number of processors, with 32 for GIC_INTERNAL and 16 for
-- GIC_NR_SGIS, no input of the interrupt controller is driven by two lines, and the controller has
-- each that is driven.
pub early_init_wiring :
    (redist_size : ℕ) (week : Week) (ms : MachineState)
    → let b = or_empty (early_init redist_size 32 16 week ms) in
      (all_distinct (gic_inputs b.wires) ≡ true)
      × (all_below (gic_width b) (gic_inputs b.wires) ≡ true)
early_init_wiring redist_size week ms =
    let (distinct, below) = devices_distinct redist_size week ms in
    let (alone, in_range) =
      wired redist_size ms.cpus (device_wires redist_size week ms) _
        (early_init_wires redist_size week ms) distinct below in
    (alone, rw (early_init_width redist_size week ms) in_range)
