-- ===== src/Linux/Dma/Memcpy.antt =====
-- The driver of week04/mmio-memcpy.c, where it differs from the one of week04/mmio.c: its interrupt
-- handler is written for kernels with and without a DMA engine, it looks at the memory of its
-- buffers, and its probe copies 256 bytes by DMA. `probe` and `remove` are for a kernel with an
-- engine: without one the file does not compile.
pub mod Undo
pub mod Copy
use device_driver_on_so_c.Prelude.{
  ℕ, Bool, true, false, not, Option, none, some, List, [], ◌∷◌, ◌-◌, ◌&&◌, ◌++◌, take, replicate,
  ◌==◌, if◌then◌else◌, has, bit_or,
}
use device_driver_on_so_c.Registers.{icr, mis, int_tx, int_rx, int_rx_empty}
use device_driver_on_so_c.Linux.Kernel.{
  Outcome, done, oops, ◌>>=◌, IrqReturn, irq_handled, irq_none, Bus,
}
use device_driver_on_so_c.Linux.Table.{Table, Hashtable}
use device_driver_on_so_c.Linux.Probe.{Answer, got, failed, enomem, put}
use device_driver_on_so_c.Linux.Dma as Dma
use device_driver_on_so_c.Linux.Dma.{Cmdev, stop_rx}
use device_driver_on_so_c.Linux.Dma.Channels.{Setup, Channels, channel, error_pointer}
use device_driver_on_so_c.Linux.Dma.Life as Life
use device_driver_on_so_c.Linux.Dma.Life.{
  DmaAnswers, State, channels, with_channels, give_up, after_node, get_irq, get_button,
}

-- What the handler asks for.
pub data Work : Type 0 where
  wake_tx_wq schedule_rx_work schedule_rx_dma_work : Work

-- `comento_mmio_interrupt`; `dma_engine` is CONFIG_DMA_ENGINE.
unfoldable pub interrupt : Bool → (bus : Bus) → bus.Block → IrqReturn × List Work × bus.Block
interrupt dma_engine bus d =
    let (cause, d') = bus.readl d mis in
    if has cause int_tx
    then (irq_handled, (if dma_engine then [] else wake_tx_wq ∷ []), bus.writel d' icr int_tx)
    else if has cause int_rx
    then (irq_handled, schedule_rx_work ∷ [], bus.writel d' icr int_rx)
    else if dma_engine && has cause int_rx_empty
    then (irq_handled, schedule_rx_dma_work ∷ [], bus.writel d' icr int_rx_empty)
    else (irq_none, [], d')

-- `comento_mmio_rx_dma_work_handler`, which lights the lamp for data in any case
unfoldable pub rx_dma_work : Cmdev → ℕ → Cmdev
rx_dma_work c residue = stop_rx (record c { rx_size = c.rx.sg_length - residue; led_data = true })

-- `comento_dma_init`, with what `dma_request_chan` and `devm_kmalloc` answer
unfoldable pub dma_init : Answer → Bool → Setup → (ℕ → Bool) → ℕ × Setup × (ℕ → Bool)
dma_init (got name) true dma held =
    (0, record { chan = channel name; has_buf = true; queued = false }, put held name true)
dma_init (got name) false dma held = (
  enomem,
  record dma { chan = channel name; has_buf = false },
  put (put held name true) name false,
)
dma_init (failed err) memory dma held = (err, record dma { chan = error_pointer err }, held)

-- `comento_dma_probe`: where the second set-up fails the first one stays.
unfoldable pub dma_probe : Answer → Answer → Bool → Bool → Channels → ℕ × Channels
unfolding dma_init
dma_probe tx_answer rx_answer tx_memory rx_memory c =
    let (ret, tx, held) = dma_init tx_answer tx_memory c.tx c.held in
    let (ret', rx, held') = dma_init rx_answer rx_memory c.rx held in
    if not (ret == 0)
    then (ret, record c { tx = tx; held = held })
    else if not (ret' == 0)
    then (ret', record c { tx = tx; rx = rx; held = held' })
    else (0, record c { tx = tx; rx = rx; held = held'; imsc = bit_or c.imsc int_rx_empty })

-- "Hello world~!!!"
abbrev pub hello : List ℕ
hello = 72 ∷ 101 ∷ 108 ∷ 108 ∷ 111 ∷ 32 ∷ 119 ∷ 111 ∷ 114 ∷ 108 ∷ 100 ∷ 126 ∷ 33 ∷ 33 ∷ 33 ∷ []

-- What `%s` shows of a buffer
unfoldable pub text : List ℕ → List ℕ
text [] = []
text (x ∷ xs) = let rest = text xs in if x == 0 then [] else x ∷ rest

-- `src` after `snprintf`, and `dst` when the engine has copied so many bytes of it
abbrev pub source : List ℕ
source = hello ++ replicate 241 0

abbrev pub destination : ℕ → List ℕ
destination n = take n source ++ replicate (256 - n) 0

-- `comento_dma_memcpy`: the channel that `dma_request_channel` finds, if any, whether there is
-- memory for both buffers, whether the job can be prepared, and how many bytes the engine has copied
-- at the second look at `dst` and at the last. A null pointer is followed, or copied to, where one
-- of these fails. It gives the channels given out, and the texts shown of `dst`.
unfoldable pub memcpy :
    Option ℕ → Bool → Bool → ℕ → ℕ → (ℕ → Bool) → Outcome ((ℕ → Bool) × List (List ℕ))
unfolding text
memcpy none memory prepared before after held = oops
memcpy (some name) memory prepared before after held =
    if memory && prepared
    then done (
      put held name true,
      text (destination 0) ∷ text (destination before) ∷ text (destination after) ∷ [],
    )
    else oops

-- What else the kernel answers to `probe`.
pub record CopyAnswers : Type 0 where
  pub dma : DmaAnswers
  pub rx_memory : Bool
  pub has_irq : Bool
  pub copy_chan : Option ℕ
  pub copy_memory : Bool
  pub prepared : Bool
  pub copied_before : ℕ
  pub copied_after : ℕ

module _ (hash : Hashtable) (answers : CopyAnswers) (adev : ℕ) where
  -- From `comento_dma_probe` to the end
  unfoldable pub set_up_dma : State → Outcome (ℕ × State)
  unfolding dma_probe memcpy get_button
  set_up_dma s =
      let (ret, c) =
        dma_probe answers.dma.tx_chan answers.dma.rx_chan answers.dma.dma_memory answers.rx_memory
          (channels adev s) in
      let s' = with_channels adev s c in
      if ret == 0
      then (memcpy answers.copy_chan answers.copy_memory answers.prepared answers.copied_before
            answers.copied_after s'.held
          >>= λ copied. done (0, get_button hash answers.dma adev (record s' { held = copied.0 })))
      else done (give_up adev ret s')

  -- `comento_mmio_probe`; a device without an interrupt asks for none.
  unfoldable pub probe : State → Outcome (ℕ × State)
  unfolding after_node get_irq set_up_dma
  probe s = after_node hash answers.dma adev s (λ s'.
      if answers.has_irq then get_irq hash answers.dma adev true s' set_up_dma else set_up_dma s')

-- `comento_mmio_remove`, and the functions that are those of week04/mmio.c with a DMA engine; the
-- write differs in that it holds the lock throughout.
abbrev pub remove : Hashtable → ℕ → State → Outcome State
remove = Life.remove

abbrev pub get_device : Hashtable → Table Cmdev → ℕ → Option Cmdev
get_device = Dma.get_device

abbrev pub tx_callback : Cmdev → Cmdev
tx_callback = Dma.tx_callback

abbrev pub rx_callback : Cmdev → Cmdev
rx_callback = Dma.rx_callback

abbrev pub button_interrupt : Cmdev → Cmdev
button_interrupt = Dma.button_interrupt

abbrev pub read : (ℕ → ℕ) → Option Cmdev → ℕ → ℕ → Outcome (ℕ × List ℕ × ℕ)
read = Dma.read

abbrev pub rx_work : Cmdev → Bool → Bool → Outcome Cmdev
rx_work = Dma.rx_work

abbrev pub write :
    (ℕ → ℕ → List ℕ)
    → (Cmdev → Cmdev)
    → (ℕ → Bool)
    → (ℕ → Bool)
    → ℕ
    → Option Cmdev
    → ℕ
    → ℕ
    → Outcome (ℕ × ℕ × Option Cmdev)
write = Dma.write
