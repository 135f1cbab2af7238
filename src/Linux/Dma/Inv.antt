-- ===== src/Linux/Dma/Inv.antt =====
-- The invariant of the driver of week04/mmio.c, through interrupts, works and completed jobs in any
-- order.
use device_driver_on_so_c.Prelude.{
  ℕ, ◌≤◌, ◌≡◌, refl, arith, Bool, true, List, [], ◌∷◌, ◌&&◌, leb, Bool-cases, inl, inr,
}
use device_driver_on_so_c.Linux.Kernel.{Outcome, done, ◌>>=◌}
use device_driver_on_so_c.Linux.Dma.{
  Cmdev, buffer_size, tx_callback, rx_callback, stop_rx, rx_dma_work, button_interrupt, rx_work,
}

-- A list is mapped exactly while its job is queued, and so are the lamps of the two directions on;
-- what was received lies in the buffer, and its lamp is on if there is anything.
pub record IsValid (c : Cmdev) : Type 0 where
  pub tx_mapped : c.tx.mapped ≡ c.tx.queued
  pub rx_mapped : c.rx.mapped ≡ c.rx.queued
  pub tx_lamp : c.led_tx ≡ c.tx.queued
  pub rx_lamp : c.led_rx ≡ c.rx.queued
  pub rx_whole : c.rx.sg_length ≡ buffer_size
  pub rx_in_buffer : c.rx_size ≤ buffer_size

-- What can happen to the device beside a write: the receive work, with what the controller answers;
-- the work at the end of the data, with the residue; the button; the end of a job.
pub data Event : Type 0 where
  start_receive : Bool → Bool → Event
  end_receive : ℕ → Event
  button tx_end rx_end : Event

pub handle : Cmdev → Event → Outcome Cmdev
handle c (start_receive map_works prep_works) = rx_work c map_works prep_works
handle c (end_receive residue) = done (rx_dma_work c residue)
handle c button = done (button_interrupt c)
handle c tx_end = done (tx_callback c)
handle c rx_end = done (rx_callback c)

-- The controller has no more left to do than the length of the list.
unfoldable pub all_within : List Event → Bool
all_within [] = true
all_within (end_receive residue ∷ es) = leb residue buffer_size && all_within es
all_within (start_receive map_works prep_works ∷ es) = all_within es
all_within (button ∷ es) = all_within es
all_within (tx_end ∷ es) = all_within es
all_within (rx_end ∷ es) = all_within es

pub handle_all : Cmdev → List Event → Outcome Cmdev
unfolding handle
handle_all c [] = done c
handle_all c (e ∷ es) = handle c e >>= λ c'. handle_all c' es

handle-IsValid :
    (c : Cmdev) (e : Event) → IsValid c → (c' : Cmdev) × (handle c e ≡ done c') × IsValid c'
unfolding handle rx_work rx_dma_work stop_rx rx_callback tx_callback button_interrupt
handle-IsValid c (start_receive map_works prep_works) v =
    elim (Bool-cases (map_works && prep_works)) [
      | inl both ↦ (
        record (stop_rx c) {
          rx = record (stop_rx c).rx { mapped = true; queued = true };
          led_rx = true;
        },
        ground arith,
        ground arith,
      )
      | inr either ↦ (stop_rx c, ground arith, ground arith)
    ]
handle-IsValid c (end_receive residue) v = (rx_dma_work c residue, refl, ground arith)
handle-IsValid c button v = (button_interrupt c, refl, ground arith)
handle-IsValid c tx_end v = (tx_callback c, refl, ground arith)
handle-IsValid c rx_end v = (rx_callback c, refl, ground arith)

later : (e : Event) (es : List Event) → all_within (e ∷ es) ≡ true → all_within es ≡ true
unfolding all_within
later (start_receive map_works prep_works) es h = h
later (end_receive residue) es h = ground arith
later button es h = h
later tx_end es h = h
later rx_end es h = h

-- Any sequence of receive works, ends of data with a residue within the buffer, presses of the
-- button and completed jobs leaves a valid device valid: no list is mapped twice, mappings and
-- lamps follow the jobs, and what was received stays within the buffer.
pub handle_all-IsValid :
    (es : List Event) (c : Cmdev)
    → all_within es ≡ true
    → IsValid c
    → (c' : Cmdev) × (handle_all c es ≡ done c') × IsValid c'
unfolding handle_all
handle_all-IsValid [] c h v = (c, refl, v)
handle_all-IsValid (e ∷ es) c h v =
    let (c', first, v') = handle-IsValid c e v in
    let (c'', rest, v'') = handle_all-IsValid es c' (later e es h) v' in (c'', rw first rest, v'')
