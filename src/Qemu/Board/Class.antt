-- ===== src/Qemu/Board/Class.antt =====
-- `comento_machine_class_init` of week05/comento.c, which is the same in the weeks before but for the
-- `machcomento_init` that it names: what QEMU is told of the machine. IF_SD is QEMU's.
use device_driver_on_so_c.Prelude.{
  ℕ, zero, suc, ◌≡◌, ◌≤◌, ◌<◌, ◌+◌, ◌*◌, ◌/◌, refl, ap, sym, ◌∙◌, arith, min, Bool, true, Option,
  none, some, length, leb, if◌then◌else◌, String,
}
use native.Mathlib.Nat.{le-div_iff_mul-le, le_trans, mul-le-mul}
use device_driver_on_so_c.Qemu.Board as Board
use device_driver_on_so_c.Qemu.Board.{
  Region, MachineState, Processor, processors_from, base_gic_dist, begin, init, or_empty,
}
use device_driver_on_so_c.Qemu.Board.Early.{Week, week01, week02, week03, week04, early_init}
use device_driver_on_so_c.Qemu.Board.Early.Layout.{early_init_apart}
use device_driver_on_so_c.Qemu.Board.Map.{all_apart, Sizes, init_apart}

pub record MachineClass : Type 0 where
  pub desc : String
  pub init : MachineState → Option Board.Board
  pub max_cpus : ℕ
  pub block_default_type : ℕ
  pub no_cdrom : Bool
  pub minimum_page_bits : ℕ
  pub default_ram_id : String

-- A board that QEMU knows as the machine "comento"
pub data Comento : Type 0 where
  early : Week → Comento
  week05 : Comento

-- QEMU runs `init` for the processors that it is asked for, if the class allows so many.
abbrev pub start : MachineClass → MachineState → Option Board.Board
start class ms = if leb ms.cpus class.max_cpus then class.init ms else none

pub length-processors_from : (cbar : Option ℕ) (i n : ℕ) → length (processors_from cbar i n) ≡ n
unfolding processors_from
length-processors_from cbar i zero = refl
length-processors_from cbar i (suc n) = ap suc (length-processors_from cbar (i + 1) n)

capacity :
    (redist_size cpus : ℕ)
    → 0 < redist_size
    → redist_size ≤ 0x20000
    → cpus ≤ 128
    → min cpus (0x01000000 / redist_size) ≡ cpus
capacity redist_size cpus positive small fits =
    let bound : cpus * redist_size ≤ 0x01000000 = le_trans (mul-le-mul fits small) (omega arith) in
    let room : cpus ≤ 0x01000000 / redist_size = (le-div_iff_mul-le positive).1 bound in omega arith

module _ (if_sd redist_size internal nr_sgis : ℕ) where
  -- The `machcomento_init` of each
  abbrev pub init_of : Comento → MachineState → Option Board.Board
  init_of (early week) = early_init redist_size internal nr_sgis week
  init_of week05 = init redist_size internal nr_sgis

  -- `comento_machine_class_init`
  unfoldable pub class_init : Comento → MachineClass
  class_init machine = record {
    desc = "Comento board";
    init = init_of machine;
    max_cpus = 128;
    block_default_type = if_sd;
    no_cdrom = true;
    minimum_page_bits = 12;
    default_ram_id = "mach-comento.ram";
  }

  -- What each board takes from the number of processors
  counts :
      (machine : Comento) (ms : MachineState)
      → let b = or_empty (init_of machine ms) in
        (b.redist_count ≡ min ms.cpus (0x01000000 / redist_size))
        × (b.num_cpu ≡ ms.cpus)
        × (length b.processors ≡ ms.cpus)
  unfolding init early_init begin
  counts (early week01) ms = (refl, refl, length-processors_from _ 0 ms.cpus)
  counts (early week02) ms = (refl, refl, length-processors_from _ 0 ms.cpus)
  counts (early week03) ms = (refl, refl, length-processors_from _ 0 ms.cpus)
  counts (early week04) ms = (refl, refl, length-processors_from _ 0 ms.cpus)
  counts week05 ms = (refl, refl, length-processors_from _ 0 ms.cpus)

  up :
      (machine : Comento) (ms : MachineState) (size : Region → ℕ)
      → 0 < redist_size
      → Sizes redist_size (min ms.cpus (0x01000000 / redist_size)) size
      → (b : Board.Board) × (init_of machine ms ≡ some b) × (all_apart size b.regions ≡ true)
  up (early week) ms size positive sizes =
      early_init_apart redist_size internal nr_sgis week ms size positive sizes
  up week05 ms size positive sizes =
      let (b, comes_up, count, apart) =
        init_apart redist_size internal nr_sgis ms size positive sizes in
      (b, comes_up, apart)

  -- QEMU starts each of the five boards for any number of processors up to max_cpus of its class:
  -- no device is used before it is created, the board has so many processors, the interrupt
  -- controller is set to so many and has a redistributor for each, and no two blocks share an
  -- address, if a redistributor needs more than nothing and at most 128 KiB, the distributor at
  -- most 64 KiB, each other device at most a page, and the redistributors together at most their
  -- number times their size.
  pub class_comes_up :
      (machine : Comento) (ms : MachineState) (size : Region → ℕ)
      → let class = class_init machine in
        ms.cpus ≤ class.max_cpus
        → 0 < redist_size
        → redist_size ≤ 0x20000
        → Sizes redist_size ms.cpus size
        → (b : Board.Board) × (start class ms ≡ some b)
          × (b.redist_count ≡ ms.cpus)
          × (b.num_cpu ≡ ms.cpus)
          × (length b.processors ≡ ms.cpus)
          × (all_apart size b.regions ≡ true)
  unfolding class_init
  class_comes_up machine ms size fits positive small sizes =
      let enough = capacity redist_size ms.cpus positive small fits in
      let allowed : leb ms.cpus 128 ≡ true = ground arith in
      let (b, comes_up, apart) = up machine ms size positive (rw enough sizes) in
      let same : or_empty (init_of machine ms) ≡ b = ap or_empty comes_up in
      let (redists, cpus, processors) = counts machine ms in
      (
        b,
        rw allowed comes_up,
        ap (λ (b : Board.Board). b.redist_count) (sym same) ∙ redists ∙ enough,
        ap (λ (b : Board.Board). b.num_cpu) (sym same) ∙ cpus,
        ap (λ (b : Board.Board). length b.processors) (sym same) ∙ processors,
        apart,
      )
