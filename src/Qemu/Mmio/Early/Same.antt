-- ===== src/Qemu/Mmio/Early/Same.antt =====
-- The block of week03/mmio.c answers as that of week02/mmio.c.
use device_driver_on_so_c.Prelude.{
  c_string, ℕ, ◌≡◌, ◌<◌, ◌^◌, refl, sym, ap, ◌∙◌, arith, Bool, true, not, ◌&&◌, ◌||◌, inl, inr,
  Option, none, some, List, [], ◌∷◌, ◌==◌, Bool-cases, bit_and, bit_or, bit_xor, clear, u32,
  bit_and_swap, bit_and-bit_or_kept, bit_and-bit_or_dropped, bit_and-bit_xor_kept, bit_and_absorb,
  bit_xor-lt, bit_and-le_mask,
}
use device_driver_on_so_c.Registers.{dr, ris_off, icr, imsc_off, int_rx_empty}
use device_driver_on_so_c.Qemu.Fifo.{Fifo, is_empty, is_full}
use device_driver_on_so_c.Qemu.Fifo.Contents.{contents}
use device_driver_on_so_c.Qemu.Pipe.{
  Op, Reply, guest_read, guest_write, host_get, host_set, silent, byte, text,
}
use device_driver_on_so_c.Qemu.Mmio as Mmio
use device_driver_on_so_c.Qemu.Mmio.Inv as Inv
use device_driver_on_so_c.Qemu.Mmio.Early as Early

-- What the accesses to a block of this kind answer, each read of a register with its value;
-- `none` when a loop of the block runs out of fuel.
module _ {State : Type 0} (read : State → ℕ → ℕ × State) (write : State → ℕ → ℕ → State)
    (get_data : State → Option (List ℕ × State)) (set_data : State → List ℕ → State) where
  pub access : State → Op → Option (Reply × State)
  access s (guest_read offset) = let (r, s') = read s offset in some (byte r, s')
  access s (guest_write offset value) = some (silent, write s offset value)
  access s host_get = elim (get_data s) [ none ↦ none | some (xs, s') ↦ some (text xs, s') ]
  access s (host_set xs) = some (silent, set_data s xs)

  pub answers : State → List Op → Option (List Reply)
  unfolding access
  answers s [] = some []
  answers s (op ∷ ops) = elim (access s op) [
    | none ↦ none
    | some (r, s') ↦ elim (answers s' ops) [ none ↦ none | some rs ↦ some (r ∷ rs) ]
  ]

-- A driver that does not know the interrupt for an empty receive buffer: it does not read RIS
-- itself, and writes registers of 32 bits without that bit.
unfoldable pub is_old : Op → Bool
is_old (guest_read offset) = not (offset == ris_off)
is_old (guest_write offset value) = offset == dr || (clear value int_rx_empty == value)
is_old host_get = true
is_old (host_set xs) = true

unfoldable pub all_old : List Op → Bool
unfolding is_old
all_old [] = true
all_old (op ∷ ops) = is_old op && all_old ops

-- The block of week02 that a block of week03 looks like to such a driver.
pub forget : Mmio.MmioComento → Early.MmioComento
forget s = record {
  irq = s.irq;
  flag = s.flag;
  ris = clear s.ris int_rx_empty;
  imsc = s.imsc;
  transmit = s.transmit;
  receive = s.receive;
}

-- The driver never enabled the interrupt.
abbrev Masked : Mmio.MmioComento → Type 0
Masked s = clear s.imsc int_rx_empty ≡ s.imsc

forget-update : (s : Mmio.MmioComento) → Masked s → forget (Mmio.update s) ≡ Early.update (forget s)
unfolding forget Mmio.update Early.update
forget-update s m = rw (bit_and_absorb s.ris s.imsc 4294967291 m) refl

-- What a change of RIS leaves of it without INT_RX_EMPTY.
stopped_rx :
    (r : ℕ)
    → bit_and (bit_or (bit_and r 4294967294) 4) 4294967291
      ≡ bit_and (bit_and r 4294967291) 4294967294
stopped_rx r =
    bit_and-bit_or_dropped (bit_and r 4294967294) 4 4294967291 refl
    ∙ bit_and_swap r 4294967294 4294967291

raised_rx :
    (r : ℕ) → bit_and (bit_and (bit_or r 1) 4294967291) 4294967291 ≡ bit_or (bit_and r 4294967291) 1
raised_rx r =
    bit_and_absorb (bit_or r 1) 4294967291 4294967291 refl ∙ bit_and-bit_or_kept r 1 4294967291 refl

module _ (s : Mmio.MmioComento) (masked : Masked s) where
  forget-after_put : (f : Fifo) → forget (Mmio.after_put s f) ≡ Early.after_put (forget s) f
  unfolding forget Mmio.after_put Mmio.note_tx_full Mmio.stop_tx Mmio.update Early.after_put
      Early.update
  forget-after_put f = elim (Bool-cases (is_full f)) [
    | inl e ↦
        rw
          (
            e,
            ← bit_and_swap s.ris 4294967293 4294967291,
            bit_and_absorb (bit_and s.ris 4294967293) s.imsc 4294967291 masked,
          )
          refl
    | inr e ↦ rw (e, bit_and_absorb s.ris s.imsc 4294967291 masked) refl
  ]

  forget-after_take : (f : Fifo) → forget (Mmio.after_take s f) ≡ Early.after_take (forget s) f
  unfolding forget Mmio.after_take Mmio.note_rx_empty Mmio.stop_rx Mmio.update Early.after_take
      Early.update
  forget-after_take f = elim (Bool-cases (is_empty f)) [
    | inl e ↦
        rw
          (
            e,
            e,
            ← stopped_rx s.ris,
            bit_and_absorb (bit_or (bit_and s.ris 4294967294) 4) s.imsc 4294967291 masked,
          )
          refl
    | inr e ↦ rw (e, e, bit_and_absorb s.ris s.imsc 4294967291 masked) refl
  ]

  forget-sent : (f : Fifo) → forget (Mmio.sent s f) ≡ Early.sent (forget s) f
  unfolding forget Mmio.sent Mmio.update Early.sent Early.update
  forget-sent f =
      rw
        (
          ← bit_and-bit_or_kept s.ris 2 4294967291 refl,
          bit_and_absorb (bit_or s.ris 2) s.imsc 4294967291 masked,
        )
        refl

  forget-received : (f : Fifo) → forget (Mmio.received s f) ≡ Early.received (forget s) f
  unfolding forget Mmio.received Mmio.update Early.received Early.update
  forget-received f =
      rw
        (
          ← raised_rx s.ris,
          bit_and_absorb (bit_and (bit_or s.ris 1) 4294967291) s.imsc 4294967291 masked,
        )
        refl

  forget-set_data : (xs : List ℕ) → forget (Mmio.set_data s xs) ≡ Early.set_data (forget s) xs
  unfolding Mmio.set_data Early.set_data forget
  forget-set_data [] = refl
  forget-set_data (x ∷ xs) = forget-received (Mmio.fill s.receive (x ∷ xs))

  forget-icr :
      (v : ℕ)
      → Inv.IsValid s
      → clear v int_rx_empty ≡ v
      → forget (Mmio.write s icr v) ≡ Early.write (forget s) icr v
  unfolding forget Mmio.write Mmio.update Early.write Early.update
  forget-icr v valid narrow =
      rw
        (
          no_wrap s.ris valid.ris_width,
          no_wrap (clear s.ris int_rx_empty) (omega (arith, bit_and-le_mask s.ris 4294967291)),
          ← bit_and-bit_xor_kept s.ris v 4294967291 narrow,
          bit_and_absorb (bit_xor s.ris v) s.imsc 4294967291 masked,
        )
        refl
    where
      no_wrap : (r : ℕ) → r < 2 ^ 32 → u32 (bit_xor r v) ≡ bit_xor r v
      no_wrap r h =
          let width = bit_xor-lt 32 r v h (omega (arith, narrow, bit_and-le_mask v 4294967291)) in
          omega (arith, width)

  forget-imsc :
      (v : ℕ)
      → clear v int_rx_empty ≡ v
      → forget (Mmio.write s imsc_off v) ≡ Early.write (forget s) imsc_off v
  unfolding forget Mmio.write Mmio.update Early.write Early.update
  forget-imsc v narrow = rw (no_wrap, bit_and_absorb s.ris v 4294967291 narrow) refl
    where
      no_wrap : u32 v ≡ v
      no_wrap = omega (arith, narrow, bit_and-le_mask v 4294967291)

  forget-write :
      (offset v : ℕ)
      → Inv.IsValid s
      → is_old (guest_write offset v) ≡ true
      → (forget (Mmio.write s offset v) ≡ Early.write (forget s) offset v)
        × Masked (Mmio.write s offset v)
  unfolding is_old forget Mmio.write Mmio.after_put Mmio.stop_tx Mmio.note_tx_full Mmio.update
      Early.write
  forget-write offset v valid old = ground (
    arith,
    forget-after_put (Mmio.put_byte s.transmit v),
    forget-icr v valid,
    forget-imsc v,
    bit_and-le_mask v 4294967291,
  )

  forget-read :
      (offset : ℕ)
      → is_old (guest_read offset) ≡ true
      → ((Mmio.read s offset).0 ≡ (Early.read (forget s) offset).0)
        × (forget (Mmio.read s offset).1 ≡ (Early.read (forget s) offset).1)
        × Masked (Mmio.read s offset).1
  unfolding is_old forget Mmio.read Early.read
  forget-read offset old = ground (
    arith,
    forget-after_take (Mmio.take_byte s.receive).1,
    bit_and_absorb s.ris s.imsc 4294967291 masked,
  )

  set_data-Masked : (xs : List ℕ) → Masked (Mmio.set_data s xs)
  unfolding Mmio.set_data Mmio.received Mmio.update
  set_data-Masked [] = masked
  set_data-Masked (x ∷ xs) = masked

  sent-Masked : (f : Fifo) → Masked (Mmio.sent s f)
  unfolding Mmio.sent Mmio.update
  sent-Masked f = masked

  forget-take_data :
      Inv.IsValid s
      → (s' : Mmio.MmioComento) × (xs : List ℕ) × (Mmio.take_data s ≡ some (xs, s'))
        × (Early.take_data (forget s) ≡ some (xs, forget s'))
        × Inv.IsValid s'
        × Masked s'
  unfolding Mmio.take_data Early.take_data forget
  forget-take_data valid =
      let (g, drained, whole, none_left) =
        Inv.drain_lem 32 s.transmit valid.tx_valid (omega arith) in
      (
        Mmio.sent s g,
        contents s.transmit,
        rw (Mmio.take_data, drained) refl,
        rw (Early.take_data, forget, drained)
            (ap (λ (t : Early.MmioComento). some (contents s.transmit, t)) (sym (forget-sent g))),
        Inv.sent-IsValid g valid whole none_left,
        sent-Masked g,
      )

  -- One access: the same answer, and blocks that still look alike.
  forget-access :
      (op : Op)
      → Inv.IsValid s
      → is_old op ≡ true
      → (s' : Mmio.MmioComento) × (r : Reply) × (access Mmio.read Mmio.write Mmio.get_data
            Mmio.set_data s op
          ≡ some (r, s'))
        × (access Early.read Early.write Early.get_data Early.set_data (forget s) op
            ≡ some (r, forget s'))
        × Inv.IsValid s'
        × Masked s'
  unfolding access Mmio.get_data Early.get_data
  forget-access (guest_read offset) valid old =
      let (value, state, kept) = forget-read offset old in
      (
        (Mmio.read s offset).1,
        byte (Mmio.read s offset).0,
        refl,
        rw (value, state) refl,
        Inv.read-IsValid offset valid,
        kept,
      )
  forget-access (guest_write offset v) valid old =
      let (state, kept) = forget-write offset v valid old in
      (Mmio.write s offset v, silent, refl, rw state refl, Inv.write-IsValid offset v valid, kept)
  forget-access host_get valid old =
      let (s', xs, new, early, valid', masked') = forget-take_data valid in
      (
        s',
        text (c_string xs),
        rw (access, Mmio.get_data, new) refl,
        rw (access, Early.get_data, early) refl,
        valid',
        masked',
      )
  forget-access (host_set xs) valid old = (
    Mmio.set_data s xs,
    silent,
    refl,
    rw (forget-set_data xs) refl,
    Inv.set_data-IsValid xs valid,
    set_data-Masked xs,
  )

forget-answers :
    (ops : List Op) (s : Mmio.MmioComento)
    → Inv.IsValid s
    → Masked s
    → all_old ops ≡ true
    → answers Mmio.read Mmio.write Mmio.get_data Mmio.set_data s ops
      ≡ answers Early.read Early.write Early.get_data Early.set_data (forget s) ops
unfolding answers all_old
forget-answers [] s valid masked old = refl
forget-answers (op ∷ ops) s valid masked old = elim (Bool-cases (is_old op)) [
  | inl e ↦
      let (s', r, new, early, valid', masked') = forget-access s masked op valid e in
      rw (answers, new, early, forget-answers ops s' valid' masked' (ground arith)) refl
  | inr e ↦ absurd (ground arith)
]

-- From reset, a driver that never reads RIS itself and writes only registers of 32 bits without the
-- bit of the interrupt for an empty buffer gets, whatever the host does in between, the same
-- answers of the block of week03 as of that of week02.
pub same_answers :
    (ops : List Op)
    → all_old ops ≡ true
    → answers Mmio.read Mmio.write Mmio.get_data Mmio.set_data Mmio.init ops
      ≡ answers Early.read Early.write Early.get_data Early.set_data Early.init ops
unfolding Mmio.init Early.init forget
same_answers ops old = forget-answers ops Mmio.init Inv.init-IsValid refl old
