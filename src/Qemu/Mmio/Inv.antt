-- ===== src/Qemu/Mmio/Inv.antt =====
-- The invariant of the MMIO block: flags, interrupt line and busy lines tell the truth about the
-- buffers.
use device_driver_on_so_c.Prelude.{
  c_string, ℕ, zero, suc, ◌-◌, ◌≤◌, ◌<◌, ◌^◌, ◌≡◌, ◌≢◌, refl, arith, Bool, true, false, not, some,
  List, [], ◌∷◌, ◌++◌, ◌==◌, bit, bit_and, bit_or-lt, bit_and-le, clear, raise, not32, Bool-cases,
  inl, inr, raise_one, raise_two, raise_four, raise_eight, clear_one, clear_two, clear_four,
  clear_eight, u8,
}
use device_driver_on_so_c.Qemu.Fifo.{Fifo, enqueue, dequeue, is_empty}
use device_driver_on_so_c.Qemu.Fifo.Contents as Fifo_contents
use device_driver_on_so_c.Qemu.Fifo.Contents.{used, contents}
use device_driver_on_so_c.Qemu.Mmio.{
  MmioComento, update, take_byte, after_take, read, put_byte, after_put, write, drain, sent,
  take_data, get_data, fill, received, set_data, init,
}

-- A bit, or the level of a line, that is set exactly when the count is `k`.
abbrev pub BitTells : ℕ → ℕ → ℕ → Type 0
BitTells b n k = (n ≡ k → b ≡ 1) × (n ≢ k → b ≡ 0)

abbrev pub LineTells : Bool → ℕ → ℕ → Type 0
LineTells b n k = (n ≡ k → b ≡ true) × (n ≢ k → b ≡ false)

-- TXFE, TXFF and RXFE are exact. RXFF is set while the receive buffer is full, and may stay set
-- after that. The lines follow the registers and the buffers.
pub record IsValid (s : MmioComento) : Type 0 where
  pub tx_valid : Fifo_contents.IsValid s.transmit
  pub rx_valid : Fifo_contents.IsValid s.receive
  pub txfe : BitTells (bit 3 s.flag) (used s.transmit) 0
  pub txff : BitTells (bit 2 s.flag) (used s.transmit) 31
  pub rxfe : BitTells (bit 1 s.flag) (used s.receive) 0
  pub rxff : used s.receive ≡ 31 → bit 0 s.flag ≡ 1
  pub line : s.irq ≡ not (bit_and s.ris s.imsc == 0)
  pub tx_busy : LineTells s.dma_tx_busy (used s.transmit) 31
  pub rx_busy : s.dma_rx_busy ≡ true → used s.receive ≡ 0
  pub flag_width : s.flag < 2 ^ 32
  pub ris_width : s.ris < 2 ^ 32
  pub imsc_width : s.imsc < 2 ^ 32

pub init-IsValid : IsValid init
unfolding init bit
init-IsValid = ground (arith, Fifo_contents.empty_fifo-IsValid)

module _ {s : MmioComento} (f : Fifo) (v : IsValid s) (w : Fifo_contents.IsValid f) where
  after_put-IsValid : 0 < used f → used s.transmit ≤ used f → IsValid (after_put s f)
  unfolding after_put
  after_put-IsValid h grown = ground (
    arith,
    Fifo_contents.is_full-used w,
    clear_eight s.flag,
    raise_four (clear s.flag 8),
    bit_or-lt 32 (clear s.flag 8) 4,
    bit_and-le s.flag (not32 8),
    bit_and-le s.ris (not32 2),
  )

module _ {f : Fifo} (w : Fifo_contents.IsValid f) where
  -- What a write to DR does to the transmit buffer.
  pub put_byte-IsValid : (x : ℕ) → Fifo_contents.IsValid (put_byte f x)
  unfolding put_byte
  put_byte-IsValid x = ground (arith, Fifo_contents.enqueue-IsValid x w)

  pub contents-put_byte :
      (x : ℕ)
      → (used f < 31 → contents (put_byte f x) ≡ contents f ++ (u8 x ∷ []))
        × (used f ≡ 31 → contents (put_byte f x) ≡ contents f)
  unfolding put_byte
  contents-put_byte x =
      ground (arith, Fifo_contents.is_full-used w, Fifo_contents.contents-enqueue x w)

  pub used-put_byte : (x : ℕ) → (0 < used (put_byte f x)) × (used f ≤ used (put_byte f x))
  unfolding put_byte
  used-put_byte x = ground (arith, Fifo_contents.is_full-used w, Fifo_contents.used-enqueue x w)

  -- What a read of DR does to the receive buffer.
  pub take_byte-IsValid : Fifo_contents.IsValid (take_byte f).1
  unfolding take_byte
  take_byte-IsValid = ground (arith, Fifo_contents.dequeue-IsValid w)

  pub used-take_byte : used (take_byte f).1 ≡ used f - 1
  unfolding take_byte
  used-take_byte = ground (arith, Fifo_contents.is_empty-used w, Fifo_contents.used-dequeue w)

-- A register write at any offset keeps the invariant of the block: valid buffers, TXFE, TXFF, RXFE
-- and the transmit busy line exact about them, RXFF set whenever the receive buffer is full, the
-- receive busy line high only when it is empty, the interrupt line up exactly for an enabled
-- pending interrupt, and registers of 32 bits.
pub write-IsValid :
    {s : MmioComento} (offset value : ℕ) → IsValid s → IsValid (write s offset value)
unfolding write update
write-IsValid {s} offset value v = ground (
  arith,
  after_put-IsValid (put_byte s.transmit value) v (put_byte-IsValid v.tx_valid value),
  used-put_byte v.tx_valid value,
)

-- Every read by the guest, at any offset, keeps it.
after_take-IsValid :
    {s : MmioComento} (f : Fifo) (v : IsValid s) (w : Fifo_contents.IsValid f)
    → used f ≡ used s.receive - 1
    → IsValid (after_take s f)
unfolding after_take update
after_take-IsValid {s} f v w h = ground (
  arith,
  Fifo_contents.is_empty-used w,
  clear_one s.flag,
  raise_two (clear s.flag 1),
  bit_or-lt 32 (clear s.flag 1) 2,
  bit_and-le s.flag (not32 1),
  bit_or-lt 32 (clear s.ris 1) 4,
  bit_and-le s.ris (not32 1),
)

-- A register read at any offset keeps the invariant of the block.
pub read-IsValid : {s : MmioComento} (offset : ℕ) → IsValid s → IsValid (read s offset).1
unfolding read
read-IsValid {s} offset v = ground (
  arith,
  after_take-IsValid (take_byte s.receive).1 v (take_byte-IsValid v.rx_valid),
  used-take_byte v.rx_valid,
)

-- The host reads the transmit buffer empty: the loop ends within its rounds.
pub drain_lem :
    (fuel : ℕ) (f : Fifo)
    → Fifo_contents.IsValid f
    → used f < fuel
    → (g : Fifo) × (drain fuel f ≡ some (contents f, g)) × Fifo_contents.IsValid g × (used g ≡ 0)
unfolding drain
drain_lem zero f w h = absurd (omega arith)
drain_lem (suc fuel) f w h = elim (Bool-cases (is_empty f)) [
  | inl e ↦ (f, rw (drain, e, Fifo_contents.contents_of_unused f (unused e)), w, unused e)
  | inr e ↦
      let (g, rest, valid, none_left) =
        drain_lem fuel (dequeue f).1 (Fifo_contents.dequeue-IsValid w)
          (omega (arith, Fifo_contents.used-dequeue w (in_use e))) in
      (g, ground (arith, e, rest, Fifo_contents.contents-dequeue w (in_use e)), valid, none_left)
]
  where
    unused : is_empty f ≡ true → used f ≡ 0
    unused e = ground (arith, Fifo_contents.is_empty-used w)

    in_use : is_empty f ≡ false → 0 < used f
    in_use e = ground (arith, Fifo_contents.is_empty-used w)

pub sent-IsValid :
    {s : MmioComento} (f : Fifo)
    → IsValid s
    → Fifo_contents.IsValid f
    → used f ≡ 0
    → IsValid (sent s f)
unfolding sent update
sent-IsValid {s} f v w h = ground (
  arith,
  clear_four s.flag,
  raise_eight (clear s.flag 4),
  bit_or-lt 32 (clear s.flag 4) 8,
  bit_and-le s.flag (not32 4),
  bit_or-lt 32 s.ris 2,
)

fill-IsValid :
    (f : Fifo) (xs : List ℕ) → Fifo_contents.IsValid f → Fifo_contents.IsValid (fill f xs)
unfolding fill
fill-IsValid f [] w = w
fill-IsValid f (x ∷ xs) w =
    ground (arith, fill-IsValid (enqueue f x) xs (Fifo_contents.enqueue-IsValid x w))

received-IsValid :
    {s : MmioComento} (f : Fifo)
    → IsValid s
    → Fifo_contents.IsValid f
    → 0 < used f
    → IsValid (received s f)
unfolding received update
received-IsValid {s} f v w h = ground (
  arith,
  Fifo_contents.is_full-used w,
  clear_two s.flag,
  raise_one (clear s.flag 2),
  bit_or-lt 32 (clear s.flag 2) 1,
  bit_and-le s.flag (not32 2),
  bit_or-lt 32 s.ris 1,
  bit_and-le (raise s.ris 1) (not32 4),
)

used-fill : (f : Fifo) (xs : List ℕ) → Fifo_contents.IsValid f → used f ≤ used (fill f xs)
unfolding fill
used-fill f [] w = omega arith
used-fill f (x ∷ xs) w = ground (
  arith,
  Fifo_contents.is_full-used w,
  Fifo_contents.used-enqueue x w,
  used-fill (enqueue f x) xs (Fifo_contents.enqueue-IsValid x w),
)

used-fill-pos :
    (f : Fifo) (x : ℕ) (xs : List ℕ) → Fifo_contents.IsValid f → 0 < used (fill f (x ∷ xs))
unfolding fill
used-fill-pos f x xs w = ground (
  arith,
  Fifo_contents.is_full-used w,
  Fifo_contents.used-enqueue x w,
  used-fill (enqueue f x) xs (Fifo_contents.enqueue-IsValid x w),
)

-- A write of the property data by the host, of any length, keeps the invariant of the block.
pub set_data-IsValid : {s : MmioComento} (xs : List ℕ) → IsValid s → IsValid (set_data s xs)
unfolding set_data
set_data-IsValid [] v = v
set_data-IsValid {s} (x ∷ xs) v =
    received-IsValid (fill s.receive (x ∷ xs)) v (fill-IsValid s.receive (x ∷ xs) v.rx_valid)
      (used-fill-pos s.receive x xs v.rx_valid)

-- What is taken out of a valid block by a read of the property, and what is left.
pub take_data_lem :
    {s : MmioComento}
    → IsValid s
    → (s' : MmioComento) × (take_data s ≡ some (contents s.transmit, s'))
      × IsValid s'
      × (used s'.transmit ≡ 0)
      × (s'.receive ≡ s.receive)
unfolding take_data
take_data_lem {s} v =
    let (g, done, valid, none_left) = drain_lem 32 s.transmit v.tx_valid (omega arith) in
    (
      sent s g,
      rw (take_data, done),
      sent-IsValid g v valid none_left,
      unfold sent update in none_left,
      unfold sent update in refl,
    )

-- On a valid block a read of the property data ends within 32 rounds, gives the host the content of
-- the transmit buffer up to its first 0, leaves the buffer empty, what stood behind the 0 lost, and
-- the block valid, and does not touch the receive buffer.
pub get_data_lem :
    {s : MmioComento}
    → IsValid s
    → (s' : MmioComento) × (get_data s ≡ some (c_string (contents s.transmit), s'))
      × IsValid s'
      × (used s'.transmit ≡ 0)
      × (s'.receive ≡ s.receive)
unfolding get_data
get_data_lem v =
    let (s', taken, valid, emptied, kept) = take_data_lem v in
    (s', rw (get_data, taken) refl, valid, emptied, kept)
