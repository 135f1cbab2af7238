-- ===== src/Linux/Dma/Channels.antt =====
-- The two channels of the driver of week04/mmio.c: how `probe` gets them from the DMA engine, and
-- how `remove` gives them back. A channel is named by a number.
use device_driver_on_so_c.Prelude.{
  not, ℕ, ◌≡◌, refl, arith, Bool, true, false, ◌==◌, if◌then◌else◌, bit_or,
}
use device_driver_on_so_c.Registers.{int_rx_empty}
use device_driver_on_so_c.Linux.Kernel.{Outcome, done, oops, ◌>>=◌}
use device_driver_on_so_c.Linux.Probe.{Answer, got, failed, put}

-- The field `chan`: null, a channel, or an error as a pointer.
pub data Chan : Type 0 where
  no_channel : Chan
  channel error_pointer : ℕ → Chan

-- The fields of `struct comento_dma_buf` that the set-up fills; `has_buf` is false where
-- `devm_kmalloc` returned null, which is not looked at.
pub record Setup : Type 0 where
  pub chan : Chan
  pub has_buf : Bool
  pub queued : Bool

-- The set-ups of the two directions, the channels that the engine has given out, and IMSC.
pub record Channels : Type 0 where
  pub tx : Setup
  pub rx : Setup
  pub held : ℕ → Bool
  pub imsc : ℕ

-- `comento_dma_init`, with what `dma_request_chan` and `devm_kmalloc` answer: the error or 0, the
-- set-up, and the channels given out.
unfoldable pub dma_init : Answer → Bool → Setup → (ℕ → Bool) → ℕ × Setup × (ℕ → Bool)
dma_init (got name) memory dma held =
    (0, record { chan = channel name; has_buf = memory; queued = false }, put held name true)
dma_init (failed err) memory dma held = (err, record dma { chan = error_pointer err }, held)

-- `dma_release_channel`, which follows its argument.
unfoldable pub release_channel : Chan → (ℕ → Bool) → Outcome (ℕ → Bool)
release_channel no_channel held = oops
release_channel (channel name) held = done (put held name false)
release_channel (error_pointer err) held = oops

-- `comento_dma_probe`: the error or 0, and the channels.
unfoldable pub dma_probe : Answer → Answer → Bool → Channels → Outcome (ℕ × Channels)
unfolding dma_init release_channel
dma_probe tx_answer rx_answer memory c =
    let (ret, tx, held) = dma_init tx_answer memory c.tx c.held in
    let (ret', rx, held') = dma_init rx_answer memory c.rx held in
    if not (ret == 0)
    then done (ret, record c { tx = tx; held = held })
    else if not (ret' == 0)
    then (release_channel rx.chan held' >>= λ held''.
        done (ret', record c { tx = tx; rx = rx; held = held'' }))
    else done (0, record c { tx = tx; rx = rx; held = held'; imsc = bit_or c.imsc int_rx_empty })

-- What `comento_mmio_remove` does to the channels.
unfoldable pub release_both : Channels → Outcome Channels
unfolding release_channel
release_both c = release_channel c.rx.chan c.held >>= λ held.
    release_channel c.tx.chan held >>= λ held'. done (record c { held = held' })

-- With two channels that the DMA engine gives out and that were free, the set-up of DMA returns 0,
-- holds both, asks the device for the interrupt of an empty buffer, and the releases of remove
-- give both channels back.
pub release_both-dma_probe :
    (t r : ℕ) (memory : Bool) (c : Channels)
    → c.held t ≡ false
    → c.held r ≡ false
    → (c' c'' : Channels) × (dma_probe (got t) (got r) memory c ≡ done (0, c'))
      × (c'.held t ≡ true)
      × (c'.held r ≡ true)
      × (c'.imsc ≡ bit_or c.imsc int_rx_empty)
      × (release_both c' ≡ done c'')
      × ((k : ℕ) → c''.held k ≡ c.held k)
unfolding dma_probe dma_init release_both release_channel
release_both-dma_probe t r memory c free free' =
    let c' : Channels = record c {
      tx = record { chan = channel t; has_buf = memory; queued = false };
      rx = record { chan = channel r; has_buf = memory; queued = false };
      held = put (put c.held t true) r true;
      imsc = bit_or c.imsc int_rx_empty;
    } in
    (
      c',
      record c' { held = put (put c'.held r false) t false },
      refl,
      ground arith,
      ground arith,
      refl,
      refl,
      λ k. ground arith,
    )
