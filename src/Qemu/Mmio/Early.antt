-- ===== src/Qemu/Mmio/Early.antt =====
-- The MMIO block of week02/mmio.c, the first with buffers: no lines towards a DMA controller, and
-- no interrupt for an empty receive buffer. Its `struct fifo` and the loops over it are those of
-- week03/mmio.c word for word, and are taken from `Fifo` and `Mmio`.
pub mod Same
use device_driver_on_so_c.Prelude.{
  c_string, ℕ, ◌-◌, ◌/◌, Bool, true, false, not, ◌&&◌, Option, none, some, List, [], ◌∷◌, ◌==◌, leb,
  if◌then◌else◌, get_or, bit_and, bit_xor, raise, clear, u32,
}
use device_driver_on_so_c.Registers.{
  dr, fr, ris_off, icr, imsc_off, mis, flag_txfe, flag_txff, flag_rxfe, flag_rxff, int_tx, int_rx,
}
use device_driver_on_so_c.Qemu.Fifo.{Fifo, fifo_size, empty_fifo, is_full, is_empty}
use device_driver_on_so_c.Qemu.Mmio.{mmio_id, take_byte, put_byte, drain, fill}

-- `MMIO_COMENTO_State`
pub record MmioComento : Type 0 where
  pub irq : Bool
  pub flag : ℕ
  pub ris : ℕ
  pub imsc : ℕ
  pub transmit : Fifo
  pub receive : Fifo

-- `comento_mmio_update`
pub update : MmioComento → MmioComento
update s = record s { irq = not (bit_and s.ris s.imsc == 0) }

-- The two tests for an empty buffer of `case COMENTO_DR` of a read.
pub after_take : MmioComento → Fifo → MmioComento
unfolding update
after_take s f = update (record s {
  receive = f;
  flag = if is_empty f then raise (clear s.flag flag_rxff) flag_rxfe else s.flag;
  ris = if is_empty f then clear s.ris int_rx else s.ris;
})

-- `comento_mmio_read`
pub read : MmioComento → ℕ → ℕ × MmioComento
unfolding take_byte after_take
read s offset =
    if offset == dr
    then (let (r, f) = take_byte s.receive in (r, after_take s f))
    else if offset == fr
    then (s.flag, s)
    else if offset == ris_off
    then (s.ris, s)
    else if offset == imsc_off
    then (s.imsc, s)
    else if offset == mis
    then (bit_and s.ris s.imsc, s)
    else if leb 0xfe0 offset && leb offset 0xfff
    then (get_or mmio_id ((offset - 0xfe0) / 4) 0, s)
    else (0, s)

-- The flags and the interrupt of `case COMENTO_DR` of a write.
pub after_put : MmioComento → Fifo → MmioComento
unfolding update
after_put s f =
    let flag' = clear s.flag flag_txfe in
    update (record s {
      transmit = f;
      flag = if is_full f then raise flag' flag_txff else flag';
      ris = if is_full f then clear s.ris int_tx else s.ris;
    })

-- `comento_mmio_write`
pub write : MmioComento → ℕ → ℕ → MmioComento
unfolding put_byte after_put update
write s offset value =
    if offset == dr
    then after_put s (put_byte s.transmit value)
    else if offset == icr
    then update (record s { ris = u32 (bit_xor s.ris value) })
    else if offset == imsc_off
    then update (record s { imsc = u32 value })
    else s

pub sent : MmioComento → Fifo → MmioComento
unfolding update
sent s f = update (record s {
  transmit = f;
  flag = raise (clear s.flag flag_txff) flag_txfe;
  ris = raise s.ris int_tx;
})

-- `comento_get_data`: the bytes stored in `ret`, with as many rounds of the loop as the buffer has
-- slots
pub take_data : MmioComento → Option (List ℕ × MmioComento)
unfolding drain sent
take_data s = elim (drain fifo_size s.transmit) [
  | none ↦ none
  | some (ret, f) ↦ some (ret, sent s f)
]

-- The string that the host gets from `comento_get_data`: it ends at the first 0 of `ret`.
pub get_data : MmioComento → Option (List ℕ × MmioComento)
unfolding take_data
get_data s = elim (take_data s) [ none ↦ none | some (ret, s') ↦ some (c_string ret, s') ]

pub received : MmioComento → Fifo → MmioComento
unfolding update
received s f =
    let flag' = clear s.flag flag_rxfe in
    update (record s {
      receive = f;
      flag = if is_full f then raise flag' flag_rxff else flag';
      ris = raise s.ris int_rx;
    })

-- `comento_set_data`, on the bytes of the string before its NUL
pub set_data : MmioComento → List ℕ → MmioComento
unfolding fill received
set_data s [] = s
set_data s (x ∷ xs) = received s (fill s.receive (x ∷ xs))

-- `comento_mmio_init`
pub init : MmioComento
init = record {
  irq = false;
  flag = raise flag_txfe flag_rxfe;
  ris = 0;
  imsc = 0;
  transmit = empty_fifo;
  receive = empty_fifo;
}
