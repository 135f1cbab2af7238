-- ===== src/Qemu/Kdy/Layout.antt =====
-- Where the board of qemu/kdy.c puts its registers, and how it joins its interrupts.
use device_driver_on_so_c.Prelude.{
  ℕ, ◌*◌, ◌/◌, ◌≤◌, ◌<◌, ◌≡◌, refl, arith, min, true, false, some, append_assoc, length, leb,
}
use native.Mathlib.Nat.{mul-le-mul_right}
use device_driver_on_so_c.Qemu.Board as Board
use device_driver_on_so_c.Qemu.Board.{
  MachineState, Region, Output, Input, ram, redist, dist, uart_regs, num_irqs, or_empty, cpu_wires,
  begin,
}
use device_driver_on_so_c.Qemu.Board.Map.{Sizes, apart_from_all, all_apart}
use device_driver_on_so_c.Qemu.Board.Wiring.{
  own, gic_inputs, fresh, all_distinct, all_below, wired, gic_width,
}
use device_driver_on_so_c.Qemu.Kdy.{size_gic_redist, init, class_init}
use device_driver_on_so_c.Qemu.Board.Class.{start, length-processors_from}

-- QEMU starts the board of qemu/kdy.c for any number of processors up to max_cpus of its class,
-- with redistributors of 128 KiB or less: it has so many processors, and no two of its blocks share
-- an address, if each UART needs no more than a page, the distributor no more than 64 KiB and the
-- redistributors no more than their number times their size.
pub kdy_apart :
    (if_sd redist_size internal nr_sgis : ℕ) (ms : MachineState) (size : Region → ℕ)
    → let class = class_init redist_size internal nr_sgis if_sd in
      ms.cpus ≤ class.max_cpus
      → redist_size ≤ 0x20000
      → Sizes redist_size (min ms.cpus (size_gic_redist / redist_size)) size
      → (b : Board.Board) × (start class ms ≡ some b)
        × (b.redist_count ≡ min ms.cpus (size_gic_redist / redist_size))
        × (length b.processors ≡ ms.cpus)
        × (all_apart size b.regions ≡ true)
unfolding class_init init begin all_apart apart_from_all
kdy_apart if_sd redist_size internal nr_sgis ms size few small fits =
    let n : ℕ = min ms.cpus (size_gic_redist / redist_size) in
    let one : n * redist_size ≤ 128 * redist_size = mul-le-mul_right redist_size (omega arith) in
    let room : n * redist_size ≤ 0x01000000 = omega (arith, one) in
    let allowed : leb ms.cpus 128 ≡ true = ground arith in
    (
      or_empty (init redist_size internal nr_sgis ms),
      rw allowed refl,
      refl,
      length-processors_from _ 0 ms.cpus,
      ground (arith, room, fits.redist_fits, fits.dist_fits, fits.uart_fits),
    )

-- The capacity of the redistributors' space is no guard: for 129 processors or more, with
-- redistributors of 128 KiB each, it allows so many that they reach into the distributor.
pub kdy_overlap :
    (internal nr_sgis : ℕ) (ms : MachineState) (size : Region → ℕ)
    → 129 ≤ ms.cpus
    → size redist ≡ min ms.cpus (size_gic_redist / 0x20000) * 0x20000
    → 0 < size dist
    → all_apart size (or_empty (init 0x20000 internal nr_sgis ms)).regions ≡ false
unfolding init all_apart apart_from_all
kdy_overlap internal nr_sgis ms size many exact some_size = ground arith

-- For any number of processors, with 32 for GIC_INTERNAL and 16 for GIC_NR_SGIS, no input of the
-- interrupt controller of this board is driven by two lines, and the controller has each that is
-- driven.
pub kdy_wiring :
    (redist_size : ℕ) (ms : MachineState)
    → let b = or_empty (init redist_size 32 16 ms) in
      (all_distinct (gic_inputs b.wires) ≡ true)
      × (all_below (gic_width b) (gic_inputs b.wires) ≡ true)
unfolding init own gic_inputs fresh all_distinct all_below
kdy_wiring redist_size ms =
    wired redist_size ms.cpus (or_empty (init redist_size 32 16 (record ms { cpus = 0 }))).wires
      (or_empty (init redist_size 32 16 ms)).wires (simp append_assoc) refl refl
