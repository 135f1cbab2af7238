-- ===== src/Qemu/Board/Early.antt =====
-- The boards of the weeks before: week01/comento.c, week02/comento.c (also qemu/comento.c),
-- week03/comento.c and week04/comento.c. Each is the next one's without the devices that came
-- later; the functions that create a device are the same text in each file, but for `create_mmio`
-- of week02, which knows no DMA controller.
pub mod Layout
pub mod Week01
pub mod Week02
pub mod Week03
pub mod Week04
use device_driver_on_so_c.Prelude.{ℕ, Option, some, [], ◌∷◌}
use device_driver_on_so_c.Qemu.Board as Board
use device_driver_on_so_c.Qemu.Board.Early.Week01 as Week01
use device_driver_on_so_c.Qemu.Board.Early.Week02 as Week02
use device_driver_on_so_c.Qemu.Board.Early.Week03 as Week03
use device_driver_on_so_c.Qemu.Board.Early.Week04 as Week04
use device_driver_on_so_c.Qemu.Board.{
  MachineState, begin, base_gic_dist, mmio_regs, mmio_out, gic_in, base_mem, base_mmio, irq_mmio,
  map_at, join, needs, ◌and_then◌, create_gic, create_uart, create_mmio, create_dma, create_mmc,
  create_gpio, create_leds_and_button,
}

-- `create_mmio` of week02
unfoldable pub create_mmio_alone : Board.Board → Option Board.Board
create_mmio_alone b =
    needs b.has_gic (join (map_at b base_mmio mmio_regs) ((mmio_out 0, gic_in irq_mmio) ∷ []))

module _ (redist_size internal nr_sgis : ℕ) where
  -- `machcomento_init` of each week
  unfoldable pub week01_init : MachineState → Option Board.Board
  unfolding begin create_gic create_uart
  week01_init ms =
      some
        (Week01.create_gic redist_size internal nr_sgis ms.cpus (begin base_mem base_gic_dist ms))
      and_then Week01.create_uart

  unfoldable pub week02_init : MachineState → Option Board.Board
  unfolding begin create_gic create_uart create_mmio_alone
  week02_init ms =
      some
        (Week02.create_gic redist_size internal nr_sgis ms.cpus (begin base_mem base_gic_dist ms))
      and_then Week02.create_uart
      and_then create_mmio_alone

  unfoldable pub week03_init : MachineState → Option Board.Board
  unfolding begin create_gic create_uart create_dma create_mmio create_mmc
  week03_init ms =
      some
        (Week03.create_gic redist_size internal nr_sgis ms.cpus (begin base_mem base_gic_dist ms))
      and_then Week03.create_uart
      and_then Week03.create_dma
      and_then Week03.create_mmio
      and_then Week03.create_mmc ms.drive

  unfoldable pub week04_init : MachineState → Option Board.Board
  unfolding begin create_gic create_uart create_dma create_mmio create_mmc create_gpio
      create_leds_and_button
  week04_init ms =
      some
        (Week04.create_gic redist_size internal nr_sgis ms.cpus (begin base_mem base_gic_dist ms))
      and_then Week04.create_uart
      and_then Week04.create_dma
      and_then Week04.create_mmio
      and_then Week04.create_mmc ms.drive
      and_then Week04.create_gpio
      and_then Week04.create_leds_and_button

pub data Week : Type 0 where
  week01 week02 week03 week04 : Week

unfoldable pub early_init : ℕ → ℕ → ℕ → Week → MachineState → Option Board.Board
unfolding week01_init week02_init week03_init week04_init
early_init redist_size internal nr_sgis week01 = week01_init redist_size internal nr_sgis
early_init redist_size internal nr_sgis week02 = week02_init redist_size internal nr_sgis
early_init redist_size internal nr_sgis week03 = week03_init redist_size internal nr_sgis
early_init redist_size internal nr_sgis week04 = week04_init redist_size internal nr_sgis
