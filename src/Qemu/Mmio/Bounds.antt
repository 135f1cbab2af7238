-- ===== src/Qemu/Mmio/Bounds.antt =====
-- The limits of the MMIO block of week03/mmio.c, in every state that it can reach.
use device_driver_on_so_c.Prelude.{◌<◌, ◌^◌, ◌≡◌, refl, Option, none, some, List, [], ◌∷◌, length}
use device_driver_on_so_c.Qemu.Fifo.{Fifo, fifo_size}
use device_driver_on_so_c.Qemu.Fifo.Contents as Fifo_contents
use device_driver_on_so_c.Qemu.Fifo.Contents.{in_bounds}
use device_driver_on_so_c.Qemu.Pipe.{Op}
use device_driver_on_so_c.Qemu.Mmio.{MmioComento, init}
use device_driver_on_so_c.Qemu.Mmio.Inv.{IsValid, init-IsValid}
use device_driver_on_so_c.Qemu.Mmio.Refine.{step, step_refines}

-- The state after a list of accesses; `none` when a loop of the block runs out of fuel.
pub reached : MmioComento → List Op → Option MmioComento
reached s [] = some s
reached s (op ∷ ops) = elim (step s op) [ none ↦ none | some (r, s') ↦ reached s' ops ]

reached-IsValid :
    (ops : List Op) (s : MmioComento)
    → IsValid s
    → (s' : MmioComento) × (reached s ops ≡ some s') × IsValid s'
unfolding reached
reached-IsValid [] s v = (s, refl, v)
reached-IsValid (op ∷ ops) s v =
    let (s', done, valid, seen) = step_refines op v in
    let (s'', rest, valid') = reached-IsValid ops s' valid in (s'', rw (reached, done) rest, valid')

-- Both indices of a buffer lie within its storage of 32 bytes.
pub record InBounds (f : Fifo) : Type 0 where
  pub storage : length f.buf ≡ fifo_size
  pub rear_in : f.rear < length f.buf
  pub front_in : f.front < length f.buf

fifo-InBounds : {f : Fifo} → Fifo_contents.IsValid f → InBounds f
fifo-InBounds v = record {
  storage = v.storage;
  rear_in = (in_bounds v).0;
  front_in = (in_bounds v).1;
}

-- Any sequence of register accesses by the guest and property accesses by the host ends, from
-- reset, in a state whose buffers are indexed within their 32 bytes and whose registers fit 32
-- bits.
pub reached-bounds :
    (ops : List Op)
    → (s : MmioComento) × (reached init ops ≡ some s)
      × InBounds s.transmit
      × InBounds s.receive
      × (s.flag < 2 ^ 32)
      × (s.ris < 2 ^ 32)
      × (s.imsc < 2 ^ 32)
reached-bounds ops =
    let (s, ended, v) = reached-IsValid ops init init-IsValid in
    (
      s,
      ended,
      fifo-InBounds v.tx_valid,
      fifo-InBounds v.rx_valid,
      v.flag_width,
      v.ris_width,
      v.imsc_width,
    )
