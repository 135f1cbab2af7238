-- ===== src/System/Unanswered.antt =====
-- The log removed under the driver of week03/과제03/mmio-driver.c, over the block of
-- week03/과제03/mmio.c.
use device_driver_on_so_c.Prelude.{
  ℕ, zero, suc, ◌≡◌, refl, true, false, some, List, [], ◌∷◌, replicate, has, bit_and,
}
use device_driver_on_so_c.Registers.{ldr, int_rx, int_tx}
use device_driver_on_so_c.Qemu.Log as Block
use device_driver_on_so_c.Qemu.Log.Lines.{MmioComento, read, write}
use device_driver_on_so_c.Qemu.Log.Posix.{Files}
use device_driver_on_so_c.Linux.Kernel.{Bus, IrqReturn, irq_none, done}
use device_driver_on_so_c.Linux.Log as Log
use device_driver_on_so_c.Linux.Dma.Logging.{interrupt, ioctl}
use device_driver_on_so_c.System.Logging.{one_pending}

module _ (files : Files) where
  -- The block as the driver's bus. Nothing sleeps here.
  abbrev pub lines_bus : Bus
  lines_bus = record {
    Block = MmioComento files;
    readl = λ s offset. (read files s offset, s);
    writel = write files;
    sleep = λ s. s;
  }

  -- The handler called `n` times in a row, with what it returned.
  pub called : ℕ → MmioComento files → List IrqReturn × MmioComento files
  called zero s = ([], s)
  called (suc n) s =
      let (ret, s') = interrupt lines_bus s in let (rets, s'') = called n s' in (ret ∷ rets, s'')

  ignored :
      (s : MmioComento files)
      → has (bit_and s.comento.ris s.comento.imsc) int_tx ≡ false
      → interrupt lines_bus s ≡ (irq_none, s)
  unfolding interrupt read Block.read
  ignored s quiet = rw quiet refl

  always_ignored :
      (n : ℕ) (s : MmioComento files)
      → interrupt lines_bus s ≡ (irq_none, s)
      → called n s ≡ (replicate n irq_none, s)
  unfolding called
  always_ignored zero s e = refl
  always_ignored (suc n) s e = rw (e, always_ignored n s e) refl

  -- From a block of week03/과제03 with nothing pending and the receive interrupt enabled, a removal
  -- raises the line, and however often the handler of its driver is called it returns IRQ_NONE and
  -- leaves the line up.
  pub removal_unanswered :
      (s : MmioComento files) (n : ℕ)
      → s.comento.ris ≡ 0
      → has s.comento.imsc int_rx ≡ true
      → (s' : MmioComento files) × (ioctl lines_bus (some s) Log.ioctl_remove
          ≡ done (Log.ok, some s'))
        × (s'.comento.irq ≡ true)
        × (called n s' ≡ (replicate n irq_none, s'))
  unfolding Log.ioctl write Block.write Block.update
  removal_unanswered s n none_pending enabled =
      let (up, no_tx, rx) = one_pending s.comento.imsc enabled in
      (
        write files s ldr int_rx,
        refl,
        rw none_pending up,
        always_ignored n (write files s ldr int_rx)
            (ignored (write files s ldr int_rx) (rw none_pending no_tx)),
      )
