-- ===== src/Qemu/Board.antt =====
-- The board of week05/comento.c: which devices it creates, where their registers stand, and how
-- their lines are joined, and what is set of QEMU's devices and processors. A field of `vms` is null
-- until the device is created, and taking a pin of a null device is `none`. The sizes that QEMU's
-- own headers define are parameters; the names for QMP, and the links of a device to the memory, the
-- console or an image, and the conduit for PSCI, are left out.
pub mod Wiring
pub mod Map
pub mod Early
pub mod Class
use device_driver_on_so_c.Prelude.{
  ℕ, zero, suc, ◌+◌, ◌*◌, ◌/◌, min, Bool, true, false, Option, none, some, List, [], ◌∷◌, ◌++◌,
  if◌then◌else◌,
}

abbrev pub num_irqs : ℕ
num_irqs = 256

abbrev pub arch_timer_ns_el1_irq : ℕ
arch_timer_ns_el1_irq = 14

-- The addresses of the board, and the numbers of its interrupts.
abbrev pub base_mem : ℕ
base_mem = 0x40000000

abbrev pub base_gic_redist : ℕ
base_gic_redist = 0x08000000

abbrev pub base_gic_dist : ℕ
base_gic_dist = 0x09000000

abbrev pub base_uart : ℕ
base_uart = 0x09010000

abbrev pub base_mmio : ℕ
base_mmio = 0x09011000

abbrev pub base_dma : ℕ
base_dma = 0x09012000

abbrev pub base_mmc : ℕ
base_mmc = 0x09013000

abbrev pub base_gpio : ℕ
base_gpio = 0x09014000

abbrev pub base_spi : ℕ
base_spi = 0x09015000

abbrev pub size_gic_redist : ℕ
size_gic_redist = 0x01000000

abbrev pub irq_uart : ℕ
irq_uart = 0

abbrev pub irq_mmio : ℕ
irq_mmio = 1

abbrev pub irq_mmc : ℕ
irq_mmc = 2

abbrev pub irq_gpio : ℕ
irq_gpio = 4

abbrev pub irq_spi : ℕ
irq_spi = 5

abbrev pub irq_dma : ℕ
irq_dma = 15

-- A pin that drives a line, by the device and the number of its output. The interrupt controller
-- has outputs of its own, and `timer_out` is the timer's of a processor.
pub data Output : Type 0 where
  uart_out mmio_out dma_out mmc_out gpio_out gpio_pin key_out spi_out gic_out timer_out : ℕ → Output

-- A pin that a line drives; the processors' are named by the processor.
pub data Input : Type 0 where
  gic_in dma_in gpio_in leds_in : ℕ → Input
  cpu_irq cpu_fiq chip_select : ℕ → Input

-- A block of registers, or the memory.
pub data Region : Type 0 where
  ram redist dist uart_regs mmio_regs dma_regs mmc_regs gpio_regs spi_regs : Region

-- Of QEMU's `MachineState` what a board reads: how many processors and how much memory it is to
-- have, whether an image of an SD card was given, and whether QEMU's processors have the property
-- reset-cbar.
pub record MachineState : Type 0 where
  pub cpus : ℕ
  pub ram_size : ℕ
  pub drive : Bool
  pub with_cbar : Bool

-- A processor that was realized, with the properties that were set of it.
pub record Processor : Type 0 where
  pub cpu_index : ℕ
  pub has_el3 : Bool
  pub has_el2 : Bool
  pub reset_cbar : Option ℕ

-- `struct ComentoMachineState` with what was created, set, mapped and joined so far. The fields from
-- `revision` to `redist_count` are the properties of the interrupt controller.
pub record Board : Type 0 where
  pub ram_size : ℕ
  pub loader_start : ℕ
  pub processors : List Processor
  pub revision : ℕ
  pub num_cpu : ℕ
  pub num_irq : ℕ
  pub redist_regions : ℕ
  pub pullups : ℕ
  pub pulldowns : ℕ
  pub has_card : Bool
  pub has_gic : Bool
  pub has_dma : Bool
  pub has_gpio : Bool
  pub has_spi : Bool
  pub regions : List (ℕ × Region)
  pub wires : List (Output × Input)
  pub redist_count : ℕ
  pub scales : ℕ

abbrev pub empty_board : Board
empty_board = record {
  ram_size = 0;
  loader_start = 0;
  processors = [];
  revision = 0;
  num_cpu = 0;
  num_irq = 0;
  redist_regions = 0;
  pullups = 0;
  pulldowns = 0;
  has_card = false;
  has_gic = false;
  has_dma = false;
  has_gpio = false;
  has_spi = false;
  regions = [];
  wires = [];
  redist_count = 0;
  scales = 0;
}

-- `memory_region_add_subregion`, `sysbus_mmio_map`
abbrev pub map_at : Board → ℕ → Region → Board
map_at b base region = record b { regions = b.regions ++ ((base, region) ∷ []) }

abbrev pub join : Board → List (Output × Input) → Board
join b wires = record b { wires = b.wires ++ wires }

-- `vms->gic` and its like, on the way to `qdev_get_gpio_in`
abbrev pub needs : Bool → Board → Option Board
needs present b = if present then some b else none

-- The loop of `create_dma`: event `i` of 16.
unfoldable pub event_wires : ℕ → ℕ → List (Output × Input)
event_wires i zero = []
event_wires i (suc n) = (dma_out (i + 1), gic_in (irq_dma + i + 1)) ∷ event_wires (i + 1) n

unfoldable pub create_uart : Board → Option Board
create_uart b =
    needs b.has_gic
      (join (map_at b base_uart uart_regs) ((uart_out irq_uart, gic_in irq_uart) ∷ []))

unfoldable pub create_mmio : Board → Option Board
create_mmio b =
    if b.has_gic
    then needs b.has_dma (
        join (map_at b base_mmio mmio_regs)
          ((mmio_out 0, gic_in irq_mmio) ∷ (mmio_out 1, dma_in 0) ∷ (mmio_out 2, dma_in 1) ∷ []))
    else none

unfoldable pub create_dma : Board → Option Board
unfolding event_wires
create_dma b = needs b.has_gic (
    join (map_at (record b { has_dma = true }) base_dma dma_regs)
      ((dma_out 0, gic_in irq_dma) ∷ event_wires 0 16))

-- The card goes into the slot if there is an image for it.
unfoldable pub create_mmc : Bool → Board → Option Board
create_mmc drive b = needs b.has_gic (
    join (map_at (record b { has_card = drive }) base_mmc mmc_regs)
      ((mmc_out 0, gic_in irq_mmc) ∷ (mmc_out 1, gic_in (irq_mmc + 1)) ∷ []))

unfoldable pub create_gpio : Board → Option Board
create_gpio b = needs b.has_gic (
    join (map_at (record b { has_gpio = true; pullups = 0; pulldowns = 0xff }) base_gpio gpio_regs)
      ((gpio_out 0, gic_in irq_gpio) ∷ []))

unfoldable pub create_leds_and_button : Board → Option Board
create_leds_and_button b = needs b.has_gpio (
    join b (
      (gpio_pin 0, leds_in 0)
      ∷ (gpio_pin 1, leds_in 1)
      ∷ (gpio_pin 2, leds_in 2)
      ∷ (key_out 0, gpio_in 3)
      ∷ []))

unfoldable pub create_spi : Board → Option Board
create_spi b = needs b.has_gic (
    join (map_at (record b { has_spi = true }) base_spi spi_regs)
      ((spi_out 0, gic_in irq_spi) ∷ []))

-- Two of the scales of qemu-ssi.c
unfoldable pub create_spi_devs : Board → Option Board
create_spi_devs b =
    if b.has_spi
    then needs b.has_gpio (
        join (record b { scales = b.scales + 2 })
          ((gpio_pin 4, chip_select 0) ∷ (gpio_pin 5, chip_select 1) ∷ []))
    else none

-- The loop of `machcomento_init`: processor `i`, with `n` to go.
unfoldable pub processors_from : Option ℕ → ℕ → ℕ → List Processor
processors_from cbar i zero = []
processors_from cbar i (suc n) =
    record { cpu_index = i; has_el3 = false; has_el2 = false; reset_cbar = cbar }
    ∷ processors_from cbar (i + 1) n

-- The part of `machcomento_init` before `create_gic`, for the address of the memory and that of the
-- distributor
unfoldable pub begin : ℕ → ℕ → MachineState → Board
unfolding processors_from
begin base dist_base ms =
    let cbar : Option ℕ = if ms.with_cbar then some dist_base else none in
    record (map_at empty_board base ram) {
      ram_size = ms.ram_size;
      loader_start = base;
      processors = processors_from cbar 0 ms.cpus;
    }

-- The board of a run that came to its end.
abbrev pub or_empty : Option Board → Board
or_empty none = empty_board
or_empty (some b) = b

infixl 5 ◌and_then◌
abbrev pub ◌and_then◌ : Option Board → (Board → Option Board) → Option Board
none and_then f = none
some b and_then f = f b

-- GICV3_REDIST_SIZE, GIC_INTERNAL and GIC_NR_SGIS are QEMU's.
module _ (redist_size internal nr_sgis : ℕ) where
  -- The loop of `create_gic`, from processor `i` of `cpus` on, with `n` to go.
  unfoldable pub cpu_wires : ℕ → ℕ → ℕ → List (Output × Input)
  cpu_wires cpus i zero = []
  cpu_wires cpus i (suc n) =
      (timer_out i, gic_in (num_irqs + i * internal + nr_sgis + arch_timer_ns_el1_irq))
      ∷ (gic_out i, cpu_irq i)
      ∷ (gic_out (i + cpus), cpu_fiq i)
      ∷ cpu_wires cpus (i + 1) n

  unfoldable pub create_gic : ℕ → Board → Board
  unfolding cpu_wires
  create_gic cpus b =
      let redist_capacity : ℕ = size_gic_redist / redist_size in
      let b' = record b {
        has_gic = true;
        revision = 3;
        num_cpu = cpus;
        num_irq = num_irqs + 32;
        redist_regions = 1;
        redist_count = min cpus redist_capacity;
      } in
      join (map_at (map_at b' base_gic_dist dist) base_gic_redist redist) (cpu_wires cpus 0 cpus)

  -- `machcomento_init`
  unfoldable pub init : MachineState → Option Board
  unfolding begin create_gic create_uart create_mmio create_dma create_mmc create_gpio
      create_leds_and_button create_spi create_spi_devs
  init ms =
      some (create_gic ms.cpus (begin base_mem base_gic_dist ms))
      and_then create_uart
      and_then create_dma
      and_then create_mmio
      and_then create_mmc ms.drive
      and_then create_gpio
      and_then create_leds_and_button
      and_then create_spi
      and_then create_spi_devs
