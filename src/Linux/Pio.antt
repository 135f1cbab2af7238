-- ===== src/Linux/Pio.antt =====
-- The driver of week02/mmio-driver.c, which moves each byte through the data register itself.
pub mod Send
pub mod Loop
use device_driver_on_so_c.Prelude.{
  ℕ, zero, suc, ◌+◌, ◌-◌, ◌≤◌, ◌<◌, ◌≡◌, ◌^◌, min, Bool, true, false, not, ◌&&◌, Option, none, some,
  List, [], ◌∷◌, ◌++◌, ◌==◌, ltb, leb, if◌then◌else◌, has, length, take, drop, set, u8, u64,
}
use device_driver_on_so_c.Registers.{
  dr, fr, icr, imsc_off, mis, flag_txff, flag_rxfe, int_rx, int_tx,
}
use device_driver_on_so_c.Linux.Kernel.{
  Outcome, done, oops, running, ◌>>=◌, IrqReturn, irq_handled, irq_none, Bus,
}
use device_driver_on_so_c.Linux.Writing.{write_loop}

-- What an interrupt handler asks for beside its register accesses.
pub data Action : Type 0 where
  wake_tx_wq : Action
  schedule_rx_work : Action

module _ (bus : Bus) where
  open bus use {Block, readl, writel, sleep}

  -- `struct comento_mmio_device`: the block behind `base`, and what was received from it.
  pub record Cmdev : Type 0 where
    pub base : Block
    pub rx_buf : List ℕ
    pub rx_size : ℕ

  -- One round of the inner loop of `comento_mmio_write`. The result of the wait is not looked at.
  unfoldable pub send_byte : Block → ℕ → Block
  send_byte d x =
      let (flag, d') = readl d fr in writel (if has flag flag_txff then sleep d' else d') dr x

  -- `copy_in off n`: the bytes that `copy_from_user` copies from `buf + off` when asked for `n`.
  module _ (copy_in : ℕ → ℕ → List ℕ) where
    -- `comento_mmio_write`: the count written, the new `*ppos` and the device.
    pub write : ℕ → Option Cmdev → ℕ → ℕ → Outcome (ℕ × ℕ × Cmdev)
    write fuel none len ppos = oops
    write fuel (some cmdev) len ppos = write_loop send_byte copy_in fuel cmdev.base 0 len >>= λ r.
        done (r.0, ppos + r.0, record cmdev { base = r.1 })

  -- `comento_mmio_interrupt`
  unfoldable pub interrupt : Block → IrqReturn × List Action × Block
  interrupt d =
      let (cause, d') = readl d mis in
      if has cause int_tx
      then (irq_handled, wake_tx_wq ∷ [], writel d' icr int_tx)
      else if has cause int_rx
      then (irq_handled, schedule_rx_work ∷ [], writel d' icr int_rx)
      else (irq_none, [], d')

  -- The loop of `comento_mmio_rx_work_handler`; a store behind `rx_buf` is an `oops`.
  unfoldable pub rx_loop : ℕ → Block → ℕ → ℕ → List ℕ → Outcome (ℕ × List ℕ × Block)
  rx_loop zero d flag i buf = running
  rx_loop (suc fuel) d flag i buf =
      let (x, d') = readl d dr in
      let (flag', d'') = readl d' fr in
      let rest = rx_loop fuel d'' flag' (i + 1) (set buf i (u8 x)) in
      if not (has flag flag_rxfe)
      then (if ltb i (length buf) then rest else oops)
      else done (i, buf, d)

  -- `comento_mmio_rx_work_handler`
  unfoldable pub rx_work : ℕ → Cmdev → Outcome Cmdev
  unfolding rx_loop
  rx_work fuel cmdev =
      let (flag, d) = readl cmdev.base fr in
      rx_loop fuel d flag 0 cmdev.rx_buf >>= λ r.
      done (record cmdev { base = r.2; rx_buf = r.1; rx_size = r.0 })
