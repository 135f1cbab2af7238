-- ===== src/Linux/Dma/Life/Undo.antt =====
-- What the probes of the drivers with DMA give back when they fail, and what `remove` gives back
-- after they succeeded.
use device_driver_on_so_c.Prelude.{
  ℕ, ◌≡◌, ◌<◌, refl, ap, ◌∙◌, arith, Bool, true, false, some, ◌==◌, bit_or, if◌then◌else◌,
}
use device_driver_on_so_c.Registers.{int_rx, int_tx, int_rx_empty}
use device_driver_on_so_c.Linux.Kernel.{Outcome, done, oops}
use device_driver_on_so_c.Linux.Table.{Table, get_device, get_device-hash_add, Hashtable}
use device_driver_on_so_c.Linux.Probe as Probe
use device_driver_on_so_c.Linux.Probe.{
  Answer, got, failed, Answers, Module, Attempt, going, out, put, get_major, get_class, get_memory,
  add_node,
}
use device_driver_on_so_c.Linux.Probe.Undo.{all_succeed}
use device_driver_on_so_c.Linux.Dma.Channels.{
  channel, dma_init, dma_probe, release_channel, release_both,
}
use device_driver_on_so_c.Linux.Dma.Life.{
  DmaAnswers, State, channels, with_channels, give_up, begin, get_channels, get_irq, get_button,
  after_node, probe, remove,
}

-- Each call up to the table's entry succeeds.
abbrev pub node_made : Answers → Module → Bool
node_made answers m = all_succeed (record answers { request_irq = 0 }) m

-- The module with a device and its node.
abbrev pub WithNode : Hashtable → ℕ → Module → Module → Type 0
WithNode hash adev m m' =
    (m'.table ≡ hash.add m.table m.minor adev)
    × (m'.nodes ≡ put m.nodes m.minor true)
    × (m'.drvdata adev ≡ some m.minor)
    × (m'.regions adev ≡ true)
    × (m'.handler adev ≡ m.handler adev)
    × (m'.imsc adev ≡ bit_or int_rx int_tx)

-- The handler and the wake-up interrupt given.
abbrev pub with_irq : ℕ → State → State
with_irq adev s = record s {
  life = record (s.life) {
    handler = put s.life.handler adev true;
    wake_irq = put s.life.wake_irq adev true;
  };
}

abbrev pub module_of : Module → Attempt → Module
module_of m (going m') = m'
module_of m (out err m') = m'

-- The state after `remove` of a device with this minor number and these channels.
abbrev pub module_removed : Hashtable → ℕ → ℕ → Module → Module
module_removed hash adev minor m = record m {
  nodes = put m.nodes minor false;
  table = hash.del m.table minor adev;
  wakeup = put m.wakeup adev false;
  wake_irq = put m.wake_irq adev false;
  regions = put m.regions adev false;
}

abbrev pub removed : Hashtable → ℕ → ℕ → ℕ → ℕ → State → State
removed hash adev minor t r s =
    with_channels adev (record s { life = module_removed hash adev minor s.life })
      (record (channels adev s) { held = put (put s.held r false) t false })

pub remove_lem :
    (hash : Hashtable) (adev minor t r : ℕ) (s : State)
    → s.life.drvdata adev ≡ some minor
    → (s.tx adev).chan ≡ channel t
    → (s.rx adev).chan ≡ channel r
    → remove hash adev s ≡ done (removed hash adev minor t r s)
unfolding remove Probe.remove release_both release_channel
remove_lem hash adev minor t r s e tx rx =
    rw (remove, Probe.remove, e, release_both, release_channel, rx, tx) refl

module _ (hash : Hashtable) (answers : DmaAnswers) (adev : ℕ) (s : State) where
  pub begin_lem :
      node_made answers.base s.life ≡ true
      → let m' = module_of s.life (begin hash answers adev s.life) in
        (begin hash answers adev s.life ≡ going m') × WithNode hash adev s.life m'
  unfolding begin get_major get_class get_memory add_node
  begin_lem e = ground arith

  -- When the channel for "tx" is had but not the one for "rx", with an error that is not 0, the
  -- probe of week04 releases an error pointer.
  pub rx_refused :
      (t err : ℕ)
      → node_made answers.base s.life ≡ true
      → answers.tx_chan ≡ got t
      → answers.rx_chan ≡ failed err
      → 0 < err
      → probe hash answers adev s ≡ oops
  unfolding probe after_node get_channels dma_probe dma_init release_channel
  rx_refused t err e tx rx h = let (begun, made) = begin_lem e in rw (begun, tx, rx) (ground arith)

  -- The state of a probe that got its two channels, from the module with its node.
  abbrev set_up : Module → ℕ → ℕ → State
  set_up m t r = record s {
    life = record m { imsc = put m.imsc adev (bit_or (bit_or int_rx int_tx) int_rx_empty) };
    tx = put s.tx adev (record { chan = channel t; has_buf = answers.dma_memory; queued = false });
    rx = put s.rx adev (record { chan = channel r; has_buf = answers.dma_memory; queued = false });
    held = put (put s.held t true) r true;
  }

  channels_lem :
      (m : Module) (t r : ℕ) (rest : State → Outcome (ℕ × State))
      → answers.base.request_regions == 0 ≡ true
      → begin hash answers adev s.life ≡ going m
      → m.imsc adev ≡ bit_or int_rx int_tx
      → answers.tx_chan ≡ got t
      → answers.rx_chan ≡ got r
      → after_node hash answers adev s (λ s'. get_channels hash answers adev s' rest)
        ≡ rest (set_up m t r)
  unfolding after_node get_channels dma_probe dma_init
  channels_lem m t r rest allowed begun imsc tx rx = rw (allowed, begun, tx, rx, imsc) refl

  -- The rest of the probe of week04, from there.
  probe_lem :
      (m : Module) (t r : ℕ)
      → answers.base.request_regions == 0 ≡ true
      → begin hash answers adev s.life ≡ going m
      → m.imsc adev ≡ bit_or int_rx int_tx
      → answers.tx_chan ≡ got t
      → answers.rx_chan ≡ got r
      → probe hash answers adev s ≡ (
          if answers.base.request_irq == 0
          then done (0, get_button hash answers adev (with_irq adev (set_up m t r)))
          else done (give_up adev answers.base.request_irq (set_up m t r)))
  unfolding probe get_irq
  probe_lem m t r =
      channels_lem m t r (λ s'.
        get_irq hash answers adev true s' (λ s''. done (0, get_button hash answers adev s'')))

  -- When the interrupt is refused after the channels are had, the probe of week04 returns that
  -- error and releases the regions, but leaves its entry in the table, its node under /dev and both
  -- channels.
  pub irq_refused :
      (t r : ℕ)
      → node_made answers.base s.life ≡ true
      → answers.tx_chan ≡ got t
      → answers.rx_chan ≡ got r
      → 0 < answers.base.request_irq
      → (s' : State) × (probe hash answers adev s ≡ done (answers.base.request_irq, s'))
        × (s'.life.regions adev ≡ false)
        × (get_device hash s'.life.table s.life.minor ≡ some adev)
        × (s'.life.nodes s.life.minor ≡ true)
        × (s'.held t ≡ true)
        × (s'.held r ≡ true)
  irq_refused t r e tx rx refused =
      let (begun, made) = begin_lem e in
      let m : Module = module_of s.life (begin hash answers adev s.life) in
      let given : answers.base.request_irq == 0 ≡ false = ground arith in
      (
        (give_up adev answers.base.request_irq (set_up m t r)).1,
        probe_lem m t r (ground arith) begun made.5 tx rx ∙ rw given refl,
        ground arith,
        ap (λ (b : Table ℕ). get_device hash b s.life.minor) made.0
            ∙ get_device-hash_add hash s.life.table s.life.minor s.life.minor adev
            ∙ ground arith,
        ap (λ (f : ℕ → Bool). f s.life.minor) made.1 ∙ ground arith,
        ground arith,
        ground arith,
      )

  -- With every call answered and two channels that were free, the probe of week04 returns 0, holds
  -- the two channels and asks for all three interrupts, and the remove after it restores the table,
  -- the nodes and the channels and releases the regions, for a minor number without a node.
  pub remove-probe_dma :
      (t r : ℕ)
      → all_succeed answers.base s.life ≡ true
      → answers.tx_chan ≡ got t
      → answers.rx_chan ≡ got r
      → s.held t ≡ false
      → s.held r ≡ false
      → s.life.nodes s.life.minor ≡ false
      → (s' s'' : State) × (probe hash answers adev s ≡ done (0, s'))
        × (s'.held t ≡ true)
        × (s'.held r ≡ true)
        × (s'.life.imsc adev ≡ bit_or (bit_or int_rx int_tx) int_rx_empty)
        × (s'.life.handler adev ≡ true)
        × (remove hash adev s' ≡ done s'')
        × (s''.life.table ≡ s.life.table)
        × ((k : ℕ) → s''.life.nodes k ≡ s.life.nodes k)
        × ((k : ℕ) → s''.held k ≡ s.held k)
        × (s''.life.regions adev ≡ false)
  unfolding get_button
  remove-probe_dma t r e tx rx free free' fresh =
      let (begun, made) = begin_lem (ground arith) in
      let m : Module = module_of s.life (begin hash answers adev s.life) in
      let s' : State = get_button hash answers adev (with_irq adev (set_up m t r)) in
      let given : answers.base.request_irq == 0 ≡ true = ground arith in
      (
        s',
        removed hash adev s.life.minor t r s',
        probe_lem m t r (ground arith) begun made.5 tx rx ∙ rw given refl,
        ground arith,
        ground arith,
        ground arith,
        ground arith,
        remove_lem hash adev s.life.minor t r s' (ground arith) (ground arith) (ground arith),
        ap (λ (b : Table ℕ). hash.del b s.life.minor adev) made.0
            ∙ hash.del-add s.life.table s.life.minor adev,
        λ k. ap (λ (f : ℕ → Bool). put f s.life.minor false k) made.1 ∙ ground arith,
        λ k. ground arith,
        ground arith,
      )
