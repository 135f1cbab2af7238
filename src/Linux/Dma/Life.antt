-- ===== src/Linux/Dma/Life.antt =====
-- `probe` and `remove` of the drivers that use DMA: the one of week04/mmio.c, the one of
-- week03/mmio-driver.c, which knows no button, and the one of week03/과제03/mmio-driver.c, which asks
-- for its interrupt before its channels. Up to the entry in the table of devices they are `Probe`'s.
pub mod Undo
use device_driver_on_so_c.Linux.Table.{Hashtable}
use device_driver_on_so_c.Prelude.{ℕ, Bool, true, false, ◌==◌, if◌then◌else◌, bit_or}
use device_driver_on_so_c.Registers.{int_rx, int_tx}
use device_driver_on_so_c.Linux.Kernel.{Outcome, done, oops, running, ◌>>=◌}
use device_driver_on_so_c.Linux.Probe as Probe
use device_driver_on_so_c.Linux.Probe.{
  Answer, Answers, Module, Attempt, going, out, next, put, get_major, get_class, get_memory,
  add_node,
}
use device_driver_on_so_c.Linux.Dma.Channels.{Setup, Channels, dma_probe, release_both}

-- What the kernel's functions return to one call of `probe`: those of `Answers`, the channels that
-- the DMA engine gives out for "tx" and "rx", whether there is memory for their buffers, and 0 if
-- the button's interrupt is given.
pub record DmaAnswers : Type 0 where
  pub base : Answers
  pub tx_chan : Answer
  pub rx_chan : Answer
  pub dma_memory : Bool
  pub button_irq : ℕ

-- The driver and, by device, the two buffers' set-ups and the button's handler; and the channels
-- that the engine has given out.
pub record State : Type 0 where
  pub life : Module
  pub tx : ℕ → Setup
  pub rx : ℕ → Setup
  pub held : ℕ → Bool
  pub button : ℕ → Bool

abbrev pub channels : ℕ → State → Channels
channels adev s = record { tx = s.tx adev; rx = s.rx adev; held = s.held; imsc = s.life.imsc adev }

abbrev pub with_channels : ℕ → State → Channels → State
with_channels adev s c = record s {
  life = record (s.life) { imsc = put s.life.imsc adev c.imsc };
  tx = put s.tx adev c.tx;
  rx = put s.rx adev c.rx;
  held = c.held;
}

-- `goto out`
abbrev pub give_up : ℕ → ℕ → State → ℕ × State
give_up adev err s =
    (err, record s { life = record (s.life) { regions = put s.life.regions adev false } })

module _ (hash : Hashtable) (answers : DmaAnswers) (adev : ℕ) where
  -- From the regions to IMSC, when the regions are there
  unfoldable pub begin : Module → Attempt
  unfolding get_major get_class get_memory add_node
  begin m =
      let held = record m { regions = put m.regions adev true } in
      next
        (next
          (next (get_major hash true answers.base adev held)
            (get_class hash true answers.base adev))
          (get_memory hash true answers.base adev))
        (add_node hash true answers.base adev)

  -- `comento_dma_probe`, and the rest of the function if that returns 0
  unfoldable pub get_channels : State → (State → Outcome (ℕ × State)) → Outcome (ℕ × State)
  unfolding dma_probe
  get_channels s rest =
      dma_probe answers.tx_chan answers.rx_chan answers.dma_memory (channels adev s) >>= λ r.
      let s' = with_channels adev s r.1 in if r.0 == 0 then rest s' else done (give_up adev r.0 s')

  -- `devm_request_irq`, and the rest of the function if that returns 0; `wakes` is false where the
  -- call of `dev_pm_set_wake_irq` is commented out.
  unfoldable pub get_irq : Bool → State → (State → Outcome (ℕ × State)) → Outcome (ℕ × State)
  get_irq wakes s rest =
      if answers.base.request_irq == 0
      then rest (record s {
        life = record (s.life) {
          handler = put s.life.handler adev true;
          wake_irq = if wakes then put s.life.wake_irq adev true else s.life.wake_irq;
        };
      })
      else done (give_up adev answers.base.request_irq s)

  -- The second `devm_request_irq` of week04, whose result nobody looks at
  unfoldable pub get_button : State → State
  get_button s = record s {
    button = if answers.button_irq == 0 then put s.button adev true else s.button;
  }

  -- The regions, and what follows the table's entry
  unfoldable pub after_node : State → (State → Outcome (ℕ × State)) → Outcome (ℕ × State)
  unfolding begin
  after_node s rest =
      if answers.base.request_regions == 0
      then elim (begin s.life) [
        | going m ↦ rest (record s { life = m })
        | out err m ↦ done (give_up adev err (record s { life = m }))
      ]
      else done (answers.base.request_regions, s)

  -- `comento_mmio_probe` of week04/mmio.c
  unfoldable pub probe : State → Outcome (ℕ × State)
  unfolding after_node get_channels get_irq get_button
  probe s =
      after_node s
        (λ s'. get_channels s' (λ s''. get_irq true s'' (λ s'''. done (0, get_button s'''))))

  -- `comento_mmio_probe` of week03/mmio-driver.c
  unfoldable pub bare_probe : State → Outcome (ℕ × State)
  unfolding after_node get_channels get_irq
  bare_probe s =
      after_node s (λ s'. get_channels s' (λ s''. get_irq true s'' (λ s'''. done (0, s'''))))

  -- `comento_mmio_probe` of week03/과제03/mmio-driver.c
  unfoldable pub logging_probe : State → Outcome (ℕ × State)
  unfolding after_node get_channels get_irq
  logging_probe s = after_node s (λ s'. get_irq false s' (λ s''.
      let s''' = record s'' {
        life = record (s''.life) { imsc = put s''.life.imsc adev (bit_or int_rx int_tx) };
      } in
      get_channels s''' (λ t. done (0, t))))

-- `comento_mmio_remove`, which is the same in the three; the handlers, the buffers and `cmdev` are
-- the kernel's to free (`devm_`).
unfoldable pub remove : Hashtable → ℕ → State → Outcome State
unfolding release_both
remove hash adev s = Probe.remove hash adev s.life >>= λ m.
    release_both (channels adev (record s { life = m })) >>= λ c.
    done (with_channels adev (record s { life = m }) c)

-- That of week03/mmio-driver.c
abbrev pub bare_remove : Hashtable → ℕ → State → Outcome State
bare_remove = remove
