-- ===== src/System/Transfer/DmaToUser.antt =====
-- A message from the host to a user process by DMA: the property `data` of week03/mmio.c, the
-- interrupts, works and read of week04/mmio.c, and a controller between them.
use device_driver_on_so_c.Prelude.{
  ℕ, ◌-◌, ◌≤◌, ◌<◌, ◌^◌, ◌≡◌, refl, ap, ◌∙◌, arith, true, some, List, ◌∷◌, ◌++◌, bit, length, take,
  drop, take-length-append, length-append,
}
use device_driver_on_so_c.Registers.{icr, int_rx}
use device_driver_on_so_c.Qemu.Fifo.Contents.{used, contents, contents_of_unused, length-contents}
use device_driver_on_so_c.Qemu.Pipe.{push, push-fits}
use device_driver_on_so_c.Qemu.Mmio.{write, set_data}
use device_driver_on_so_c.Qemu.Mmio.Inv.{IsValid, set_data-IsValid, write-IsValid}
use device_driver_on_so_c.Qemu.Mmio.Flags.{icr_bits}
use device_driver_on_so_c.Qemu.Mmio.Refine.{contents-set_data, write-icr}
use device_driver_on_so_c.Linux.Kernel.{done}
use device_driver_on_so_c.Linux.Reading.{read_all}
use device_driver_on_so_c.Linux.Dma as Dma
use device_driver_on_so_c.Linux.Dma.{Cmdev, buffer_size, rx_work, rx_dma_work}
use device_driver_on_so_c.Linux.Dma.Inv as DmaInv
use device_driver_on_so_c.System.Machine.{Machine}
use device_driver_on_so_c.System.HostToUser.{AreBytes}

-- The controller stores what it takes at the start of the list, and the rest of the list is its
-- residue.
abbrev pub stored : Cmdev → List ℕ → Cmdev
stored c xs = record c { rx = record (c.rx) { buf = xs ++ drop (length xs) c.rx.buf } }

-- The device once its receive job is queued.
abbrev pub receiving : Cmdev → Cmdev
receiving c = record c { rx = record (c.rx) { mapped = true; queued = true }; led_rx = true }

pub rx_work-receiving :
    (c : Cmdev)
    → DmaInv.IsValid c
    → (c' : Cmdev) × (rx_work c true true ≡ done c')
      × (c'.rx.mapped ≡ true)
      × (c'.rx.queued ≡ true)
      × (c'.rx.buf ≡ c.rx.buf)
      × (c'.rx.sg_length ≡ buffer_size)
unfolding rx_work Dma.stop_rx Dma.rx_callback
rx_work-receiving c v =
    (receiving (Dma.stop_rx c), ground arith, refl, refl, ground arith, ground (arith, v.rx_whole))

rx_dma_work-stored :
    (c : Cmdev) (xs : List ℕ)
    → c.rx.sg_length ≡ buffer_size
    → length xs ≤ buffer_size
    → let c' = rx_dma_work (stored c xs) (buffer_size - length xs) in
      (c'.rx.buf ≡ xs ++ drop (length xs) c.rx.buf) × (c'.rx_size ≡ length xs)
unfolding rx_dma_work Dma.stop_rx Dma.rx_callback
rx_dma_work-stored c xs whole fits = ground arith

-- After the work at the end of the data, a read gives what the controller stored.
pub read-stored :
    (c : Cmdev) (xs : List ℕ) (len : ℕ) (uncopied : ℕ → ℕ)
    → c.rx.sg_length ≡ buffer_size
    → length xs ≤ buffer_size
    → length xs ≤ len
    → len < 2 ^ 63
    → ((n : ℕ) → uncopied n ≡ 0)
    → Dma.read uncopied (some (rx_dma_work (stored c xs) (buffer_size - length xs))) len 0
      ≡ done (length xs, xs, length xs)
unfolding Dma.read
read-stored c xs len uncopied whole fits asked small copies =
    let (buf, size) = rx_dma_work-stored c xs whole fits in
    let start : take (length xs) (xs ++ drop (length xs) c.rx.buf) ≡ xs = take-length-append xs _ in
    let room : length xs ≤ length (xs ++ drop (length xs) c.rx.buf) =
      omega (arith, length-append xs (drop (length xs) c.rx.buf)) in
    rw (buf, size)
      (read_all (xs ++ drop (length xs) c.rx.buf) (length xs) len uncopied room asked small
          (omega arith) copies
        ∙ rw start refl)

module _ (sleep : Machine → Machine) where
  -- What the host's message and the handler leave behind.
  pub started_lem :
      (m : Machine) (x : ℕ) (xs : List ℕ)
      → let s = set_data m.0 (x ∷ xs) in
        let started = write s icr int_rx in
        IsValid m.0
        → used m.0.receive ≡ 0
        → AreBytes (x ∷ xs)
        → length (x ∷ xs) ≤ 31
        → IsValid started
          × (contents started.receive ≡ x ∷ xs)
          × (0 < used started.receive)
          × (started.imsc ≡ s.imsc)
          × (bit 1 started.ris ≡ bit 1 s.ris)
  unfolding bit
  started_lem m x xs v empty bytes fits =
      let s = set_data m.0 (x ∷ xs) in
      let valid : IsValid s = set_data-IsValid (x ∷ xs) v in
      let kept = write-icr s int_rx in
      let held : contents (write s icr int_rx).receive ≡ x ∷ xs =
        ap contents kept.4
        ∙ (contents-set_data (x ∷ xs) v).0
        ∙ ap (λ (q : List ℕ). push q (x ∷ xs)) (contents_of_unused m.0.receive empty)
        ∙ push-fits (x ∷ xs) fits
        ∙ bytes in
      (
        write-IsValid icr int_rx valid,
        held,
        omega (arith, ap length held, length-contents (write s icr int_rx).receive),
        kept.1,
        (icr_bits 1 int_rx valid (omega arith)).1 refl,
      )
