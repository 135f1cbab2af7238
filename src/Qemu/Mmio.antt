-- ===== src/Qemu/Mmio.antt =====
-- The MMIO block of week03/mmio.c: a transmit and a receive buffer behind the registers of
-- `Registers`, an interrupt line, and two busy lines towards the DMA controller. The handlers
-- return the new state beside what they hand back. `irq`, `dma_tx_busy` and `dma_rx_busy` hold
-- the level that `qemu_set_irq` last put on the line.
pub mod Inv
pub mod Flags
pub mod Refine
pub mod Early
pub mod Bounds
pub mod Frame
pub mod Views
mod Tests
use device_driver_on_so_c.Prelude.{
  c_string, ℕ, zero, suc, ◌+◌, ◌-◌, ◌/◌, Bool, true, false, not, ◌&&◌, Option, none, some, List, [],
  ◌∷◌, ◌==◌, leb, if◌then◌else◌, get_or, bit_and, bit_xor, raise, clear, u32,
}
use device_driver_on_so_c.Registers.{
  dr, fr, ris_off, icr, imsc_off, mis, flag_txfe, flag_txff, flag_rxfe, flag_rxff, int_rx_empty,
  int_tx, int_rx,
}
use device_driver_on_so_c.Qemu.Fifo.{
  Fifo, fifo_size, empty_fifo, enqueue, dequeue, is_full, is_empty,
}

-- Peripheral ID 0x001A_A001, cell ID 0xB105_F00D.
abbrev pub mmio_id : List ℕ
mmio_id = 0x01 ∷ 0xa0 ∷ 0x1a ∷ 0x00 ∷ 0x0d ∷ 0xf0 ∷ 0x05 ∷ 0xb1 ∷ []

pub record MmioComento : Type 0 where
  pub irq : Bool
  pub flag : ℕ
  pub ris : ℕ
  pub imsc : ℕ
  pub transmit : Fifo
  pub receive : Fifo
  pub dma_tx_busy : Bool
  pub dma_rx_busy : Bool

-- `comento_mmio_update`
unfoldable pub update : MmioComento → MmioComento
update s = record s { irq = not (bit_and s.ris s.imsc == 0) }

-- `case COMENTO_DR` of a read: the byte that leaves, then the two tests for an empty buffer.
pub take_byte : Fifo → ℕ × Fifo
take_byte f = if is_empty f then (0, f) else dequeue f

note_rx_empty : MmioComento → MmioComento
note_rx_empty s =
    if is_empty s.receive then record s { flag = raise (clear s.flag flag_rxff) flag_rxfe } else s

stop_rx : MmioComento → MmioComento
stop_rx s =
    if is_empty s.receive
    then record s { ris = raise (clear s.ris int_rx) int_rx_empty; dma_rx_busy = true }
    else s

after_take : MmioComento → Fifo → MmioComento
unfolding update note_rx_empty stop_rx
after_take s f = update (stop_rx (note_rx_empty (record s { receive = f })))

read_dr : MmioComento → ℕ × MmioComento
unfolding take_byte after_take
read_dr s = let (r, f) = take_byte s.receive in (r, after_take s f)

-- `comento_mmio_read`: an offset of no register reads as 0.
unfoldable pub read : MmioComento → ℕ → ℕ × MmioComento
unfolding read_dr
read s offset =
    if offset == dr
    then read_dr s
    else if offset == fr
    then (s.flag, s)
    else if offset == ris_off
    then (s.ris, s)
    else if offset == imsc_off
    then (s.imsc, s)
    else if offset == mis
    then (bit_and s.ris s.imsc, s)
    else if leb 0xfe0 offset && leb offset 0xfff
    then (get_or mmio_id ((offset - 0xfe0) / 4) 0, s)
    else (0, s)

-- `case COMENTO_DR` of a write: the byte that joins, then the two tests for a full buffer.
pub put_byte : Fifo → ℕ → Fifo
put_byte f value = if not (is_full f) then enqueue f value else f

note_tx_full : MmioComento → MmioComento
note_tx_full s =
    let flag' = clear s.flag flag_txfe in
    record s { flag = if is_full s.transmit then raise flag' flag_txff else flag' }

stop_tx : MmioComento → MmioComento
stop_tx s =
    if is_full s.transmit then record s { ris = clear s.ris int_tx; dma_tx_busy = true } else s

after_put : MmioComento → Fifo → MmioComento
unfolding update note_tx_full stop_tx
after_put s f = update (stop_tx (note_tx_full (record s { transmit = f })))

write_dr : MmioComento → ℕ → MmioComento
unfolding put_byte after_put
write_dr s value = after_put s (put_byte s.transmit value)

-- `comento_mmio_write`: an offset of no register that can be written is ignored. `value` is a
-- `uint64_t`, cut to the width of what it is stored in.
unfoldable pub write : MmioComento → ℕ → ℕ → MmioComento
unfolding write_dr
write s offset value =
    if offset == dr
    then write_dr s value
    else if offset == icr
    then update (record s { ris = u32 (bit_xor s.ris value) })
    else if offset == imsc_off
    then update (record s { imsc = u32 value })
    else s

-- The loop of `comento_get_data`, which empties the buffer into `ret`; `none` when the fuel ends.
pub drain : ℕ → Fifo → Option (List ℕ × Fifo)
drain zero f = none
drain (suc fuel) f =
    let (x, f') = dequeue f in
    elim (is_empty f) [
      | true ↦ some ([], f)
      | false ↦ elim (drain fuel f') [ none ↦ none | some (xs, g) ↦ some (x ∷ xs, g) ]
    ]

pub sent : MmioComento → Fifo → MmioComento
unfolding update
sent s f =
    record (update (record s {
      transmit = f;
      flag = raise (clear s.flag flag_txff) flag_txfe;
      ris = raise s.ris int_tx;
    })) { dma_tx_busy = false }

-- `comento_get_data`: the bytes that are taken out of the buffer and stored in `ret` before its NUL.
-- The loop gets as many rounds as the buffer has slots.
pub take_data : MmioComento → Option (List ℕ × MmioComento)
unfolding drain sent
take_data s = elim (drain fifo_size s.transmit) [
  | none ↦ none
  | some (ret, f) ↦ some (ret, sent s f)
]

-- The string that the host gets from `comento_get_data`: it ends at the first 0 of `ret`.
pub get_data : MmioComento → Option (List ℕ × MmioComento)
unfolding take_data
get_data s = elim (take_data s) [ none ↦ none | some (ret, s') ↦ some (c_string ret, s') ]

-- The loop of `comento_set_data`, which stops at a full buffer.
unfoldable pub fill : Fifo → List ℕ → Fifo
fill f [] = f
fill f (x ∷ xs) = if is_full f then f else fill (enqueue f x) xs

unfoldable pub received : MmioComento → Fifo → MmioComento
unfolding update
received s f =
    let flag' = clear s.flag flag_rxfe in
    update (record s {
      receive = f;
      flag = if is_full f then raise flag' flag_rxff else flag';
      ris = clear (raise s.ris int_rx) int_rx_empty;
      dma_rx_busy = false;
    })

-- `comento_set_data` on the bytes of the string before its NUL.
unfoldable pub set_data : MmioComento → List ℕ → MmioComento
unfolding fill received
set_data s [] = s
set_data s (x ∷ xs) = received s (fill s.receive (x ∷ xs))

-- `comento_mmio_init` on the zeroed instance that QEMU hands it.
unfoldable pub init : MmioComento
init = record {
  irq = false;
  flag = raise flag_txfe flag_rxfe;
  ris = 0;
  imsc = 0;
  transmit = empty_fifo;
  receive = empty_fifo;
  dma_tx_busy = false;
  dma_rx_busy = false;
}
