-- ===== src/Qemu/Mmio/Refine.antt =====
-- The MMIO block of week03/mmio.c behaves as the two queues of `Pipe`.
use device_driver_on_so_c.Prelude.{
  ℕ, ◌-◌, ◌<◌, ◌≡◌, refl, sym, ap, ◌∙◌, arith, true, false, inl, inr, Option, none, some, List, [],
  ◌∷◌, ◌++◌, ◌==◌, if◌then◌else◌, Bool-cases, bit_and, bit_xor, u8, u32,
}
use device_driver_on_so_c.Registers.{dr, fr, icr, mis}
use device_driver_on_so_c.Qemu.Fifo.{Fifo, enqueue, is_empty}
use device_driver_on_so_c.Qemu.Fifo.Contents as Fifo_contents
use device_driver_on_so_c.Qemu.Fifo.Contents.{used, contents, length-contents}
use device_driver_on_so_c.Qemu.Pipe
use device_driver_on_so_c.Qemu.Pipe.{
  Op, Reply, Pipe, guest_read, guest_write, host_get, host_set, silent, byte, text, push, push-nil,
  push-full, push-cons,
}
use device_driver_on_so_c.Qemu.Mmio.{
  MmioComento, update, take_byte, after_take, read, put_byte, after_put, write, get_data, fill,
  received, set_data, init,
}
use device_driver_on_so_c.Qemu.Mmio.Inv.{
  IsValid, init-IsValid, write-IsValid, read-IsValid, set_data-IsValid, get_data_lem,
  contents-put_byte, used-take_byte,
}

-- A run of the block over a list of accesses; `none` when a loop of the block runs out of fuel.
pub step : MmioComento → Op → Option (Reply × MmioComento)
step s (guest_read offset) =
    let (r, s') = read s offset in some (if offset == dr then byte r else silent, s')
step s (guest_write offset value) = some (silent, write s offset value)
step s host_get = elim (get_data s) [ none ↦ none | some (xs, s') ↦ some (text xs, s') ]
step s (host_set xs) = some (silent, set_data s xs)

abbrev pub with_reply : Reply → Option (List Reply) → Option (List Reply)
with_reply r none = none
with_reply r (some rs) = some (r ∷ rs)

pub run : MmioComento → List Op → Option (List Reply)
run s [] = some []
run s (op ∷ ops) = elim (step s op) [ none ↦ none | some (r, s') ↦ with_reply r (run s' ops) ]

abbrev pub view : MmioComento → Pipe
view s = record { outgoing = contents s.transmit; incoming = contents s.receive }

module _ {f : Fifo} (x : ℕ) (w : Fifo_contents.IsValid f) where
  contents-put_byte-push : contents (put_byte f x) ≡ push (contents f) (x ∷ [])
  contents-put_byte-push = ground (
    arith,
    contents-put_byte w x,
    length-contents f,
    Fifo_contents.used-le f,
    push-full (contents f) (x ∷ []),
    push-cons (contents f) x [],
    push-nil (contents f ++ (u8 x ∷ [])),
  )

contents-fill :
    (f : Fifo) (xs : List ℕ) → Fifo_contents.IsValid f → contents (fill f xs) ≡ push (contents f) xs
unfolding fill
contents-fill f [] w = sym (push-nil (contents f))
contents-fill f (x ∷ xs) w = ground (
  arith,
  Fifo_contents.is_full-used w,
  length-contents f,
  Fifo_contents.used-le f,
  push-full (contents f) (x ∷ xs),
  push-cons (contents f) x xs,
  Fifo_contents.contents-enqueue x w,
  contents-fill (enqueue f x) xs (Fifo_contents.enqueue-IsValid x w),
)

pub transmit-write :
    (s : MmioComento) (offset value : ℕ)
    → ((write s offset value).transmit
        ≡ (if offset == dr then put_byte s.transmit value else s.transmit))
      × ((write s offset value).receive ≡ s.receive)
unfolding write after_put update
transmit-write s offset value = ground arith

pub transmit-read :
    (s : MmioComento) (offset : ℕ)
    → ((read s offset).1.transmit ≡ s.transmit)
      × ((read s offset).1.receive ≡ (if offset == dr then (take_byte s.receive).1 else s.receive))
      × (offset ≡ dr → (read s offset).0 ≡ (take_byte s.receive).0)
unfolding read after_take update
transmit-read s offset = ground arith

receive-set_data :
    (s : MmioComento) (xs : List ℕ)
    → ((set_data s xs).transmit ≡ s.transmit) × ((set_data s xs).receive ≡ fill s.receive xs)
unfolding set_data received update fill
receive-set_data s [] = (refl, refl)
receive-set_data s (x ∷ xs) = (refl, refl)

-- A read of DR takes the oldest byte, or reads 0 and takes none.
take_byte-view :
    (p : Pipe) {f : Fifo}
    → Fifo_contents.IsValid f
    → p.incoming ≡ contents f
    → (byte (take_byte f).0, record p { incoming = contents (take_byte f).1 })
      ≡ Pipe.take_incoming p (contents f)
unfolding take_byte Pipe.take_incoming
take_byte-view p {f} w h = elim (Bool-cases (is_empty f)) [
  | inl e ↦
      rw (e, Fifo_contents.contents_of_unused f (unused e))
        (rw (← Fifo_contents.contents_of_unused f (unused e), ← h) refl)
  | inr e ↦ rw (e, Fifo_contents.contents-dequeue w (in_use e)) refl
]
  where
    unused : is_empty f ≡ true → used f ≡ 0
    unused e = ground (arith, Fifo_contents.is_empty-used w)

    in_use : is_empty f ≡ false → 0 < used f
    in_use e = ground (arith, Fifo_contents.is_empty-used w)

-- Each access gives the reply of the queues, and leaves a valid block that holds their content.
pub step_refines :
    {s : MmioComento} (op : Op)
    → IsValid s
    → (s' : MmioComento) × (step s op ≡ some ((Pipe.step (view s) op).0, s'))
      × IsValid s'
      × (view s' ≡ (Pipe.step (view s) op).1)
unfolding step Pipe.step
step_refines {s} (guest_read offset) v = (
  (read s offset).1,
  ground (arith, transmit-read s offset, take_byte-view (view s) v.rx_valid refl),
  read-IsValid offset v,
  ground (arith, transmit-read s offset, take_byte-view (view s) v.rx_valid refl),
)
step_refines {s} (guest_write offset value) v = (
  write s offset value,
  refl,
  write-IsValid offset value v,
  ground (arith, transmit-write s offset value, contents-put_byte-push value v.tx_valid),
)
step_refines {s} host_get v =
    let (s', done, valid, emptied, kept) = get_data_lem v in
    (
      s',
      rw (step, done),
      valid,
      ground (arith, kept, Fifo_contents.contents_of_unused s'.transmit emptied),
    )
step_refines {s} (host_set xs) v = (
  set_data s xs,
  refl,
  set_data-IsValid xs v,
  ground (arith, receive-set_data s xs, contents-fill s.receive xs v.rx_valid),
)

-- Any sequence of accesses gives the replies of the queues, and no loop runs out of fuel.
pub run_refines :
    (ops : List Op) {s : MmioComento} → IsValid s → run s ops ≡ some (Pipe.run (view s) ops)
unfolding run Pipe.run
run_refines [] v = refl
run_refines (op ∷ ops) {s} v =
    let (s', done, valid, seen) = step_refines op v in rw (run, done, run_refines ops valid, seen)

-- From reset, any sequence of register accesses by the guest and property accesses by the host is
-- answered by the MMIO block exactly as by two empty queues of at most 31 bytes, of which the host,
-- as C strings end, gets what stands before the first 0, and no loop of the block runs out of fuel.
pub run-init_refines :
    (ops : List Op) → run init ops ≡ some (Pipe.run (record { outgoing = []; incoming = [] }) ops)
unfolding init
run-init_refines ops = run_refines ops init-IsValid

-- The flag register is read without a change of state.
pub read-fr : (s : MmioComento) → read s fr ≡ (s.flag, s)
unfolding read
read-fr s = refl

-- The oldest byte leaves a receive buffer that is not empty, by a read of DR.
pub contents-read-dr :
    {s : MmioComento}
    → IsValid s
    → 0 < used s.receive
    → (contents s.receive ≡ (read s dr).0 ∷ contents (read s dr).1.receive)
      × (used (read s dr).1.receive ≡ used s.receive - 1)
      × ((read s dr).1.transmit ≡ s.transmit)
unfolding take_byte
contents-read-dr {s} v h = ground (
  arith,
  transmit-read s dr,
  used-take_byte v.rx_valid,
  Fifo_contents.is_empty-used v.rx_valid,
  Fifo_contents.contents-dequeue v.rx_valid,
)

-- Access to single registers, for the drivers' side.
pub read-mis : (s : MmioComento) → read s mis ≡ (bit_and s.ris s.imsc, s)
unfolding read
read-mis s = refl

-- The receive buffer after the host's write.
pub contents-set_data :
    {s : MmioComento} (xs : List ℕ)
    → IsValid s
    → (contents (set_data s xs).receive ≡ push (contents s.receive) xs)
      × ((set_data s xs).transmit ≡ s.transmit)
contents-set_data {s} xs v = (
  ap contents (receive-set_data s xs).1 ∙ contents-fill s.receive xs v.rx_valid,
  (receive-set_data s xs).0,
)

-- A write of ICR changes RIS, by an exclusive or, and the line; nothing else.
pub write-icr :
    (s : MmioComento) (m : ℕ)
    → ((write s icr m).ris ≡ u32 (bit_xor s.ris m))
      × ((write s icr m).imsc ≡ s.imsc)
      × ((write s icr m).flag ≡ s.flag)
      × ((write s icr m).transmit ≡ s.transmit)
      × ((write s icr m).receive ≡ s.receive)
unfolding write update
write-icr s m = (refl, refl, refl, refl, refl)
