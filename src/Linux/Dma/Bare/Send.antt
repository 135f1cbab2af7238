-- ===== src/Linux/Dma/Bare/Send.antt =====
-- `comento_mmio_write` of week03/mmio-driver.c, and of week03/과제03/mmio-driver.c: which bytes the
-- controller moves to the device.
use device_driver_on_so_c.Prelude.{
  ℕ, ◌+◌, ◌≤◌, ◌<◌, ◌≡◌, ◌⊎◌, refl, sym, ap, ◌∙◌, arith, Bool, true, false, ◌&&◌, some, List, [],
  ◌++◌, append_assoc, append-nil, if◌then◌else◌, length, take, drop, take-append-drop,
}
use mathlib.Core.List.{append_cancel_right}
use device_driver_on_so_c.Linux.Kernel.{done}
use device_driver_on_so_c.Linux.Writing.Sends.{Readable}
use device_driver_on_so_c.Linux.Dma as Dma
use device_driver_on_so_c.Linux.Dma.Send as Dma_send
use device_driver_on_so_c.Linux.Dma.Bare.{Cmdev, tx_callback, write, write_loop}
use device_driver_on_so_c.Linux.Dma.Bare.Same.{forget, mapped, forget-write_loop}

-- The job in flight ends, as in `Linux.Dma.Send`.
abbrev pub tx_done : Cmdev → Cmdev
tx_done c = tx_callback (record c { wire = c.wire ++ take c.tx.sg_length c.tx.buf })

-- A writer that is not woken by a signal waits until the job in flight ends, if there is one.
abbrev pub waits : Cmdev → Cmdev
waits c = if c.tx.queued then tx_done c else c

-- What is on the way
abbrev pub pending : Cmdev → List ℕ
pending c = if c.tx.queued then take c.tx.sg_length c.tx.buf else []

-- The same device with the lamp of its job.
abbrev lit : Cmdev → Dma.Cmdev
lit c = record {
  rx_size = c.rx_size;
  tx = c.tx;
  rx = c.rx;
  led_tx = c.tx.queued;
  led_rx = false;
  led_data = false;
  wire = c.wire;
}

abbrev lit_waits : Dma.Cmdev → Dma.Cmdev
lit_waits c = if c.tx.queued then Dma_send.tx_done c else c

alike : (c : Dma.Cmdev) → forget (lit_waits c) ≡ waits (forget c)
unfolding forget tx_callback Dma.tx_callback
alike c = ground arith

forget-lit : (c : Cmdev) → forget (lit c) ≡ c
unfolding forget
forget-lit c = refl

promised-lit : (c : Cmdev) → Dma_send.promised (lit c) ≡ c.wire ++ pending c
promised-lit c =
    elim c.tx.queued
      as (λ b.
        (if b then c.wire ++ take c.tx.sg_length c.tx.buf else c.wire)
        ≡ c.wire ++ (if b then take c.tx.sg_length c.tx.buf else [])) [
          | true ↦ refl
          | false ↦ sym (append-nil c.wire)
        ]

-- What is left over is what was not taken.
behind : (p q bytes : List ℕ) (n : ℕ) → p ++ drop n bytes ≡ q ++ bytes → p ≡ q ++ take n bytes
behind p q bytes n h = append_cancel_right p (q ++ take n bytes) (drop n bytes) (
    h
    ∙ sym (
        append_assoc q (take n bytes) (drop n bytes)
        ∙ ap (λ (l : List ℕ). q ++ l) (take-append-drop n bytes)))

module _ (copy_in : ℕ → ℕ → List ℕ) (map_works prep_works : ℕ → Bool) (bytes : List ℕ)
    (user : Readable copy_in bytes) where
  -- A write by DMA of a readable buffer always returns, and what it counts, behind what was on the
  -- way, is what the controller moved.
  pub write_moves :
      (fuel : ℕ) (c : Cmdev) (ppos : ℕ)
      → length bytes < fuel
      → c.tx.mapped ≡ c.tx.queued
      → (n : ℕ) × (c' : Cmdev) × (write copy_in waits map_works prep_works fuel
            (some c)
            (length bytes)
            ppos
          ≡ done (n, ppos + n, some c'))
        × (n ≤ length bytes)
        × (c'.wire ≡ c.wire ++ (pending c ++ take n bytes))
        × (c'.tx.queued ≡ false)
        × (c'.tx.mapped ≡ false)
        × ((n ≡ length bytes) ⊎ (map_works n && prep_works n ≡ false))
  unfolding write forget
  write_moves fuel c ppos h v =
      let (n, c', ended, v', fits, total, why) =
        Dma_send.loop_lem copy_in lit_waits (λ d. refl) map_works prep_works bytes user fuel (lit c)
          0 (length bytes) (omega arith) h (record { mapped = v; lamp = refl }) in
      let (idle, unmapped, dark, arrived) = Dma_send.settled copy_in lit_waits (λ d. refl) c' v' in
      let bare_ended : write_loop copy_in waits map_works prep_works fuel c 0 (length bytes)
          ≡ done (n, forget c') =
        sym (
          forget-write_loop copy_in lit_waits waits alike map_works prep_works fuel (lit c) 0
            (length bytes))
        ∙ ap (mapped (λ r. (r.0, forget r.1))) ended in
      let sent = behind (Dma_send.promised c') (Dma_send.promised (lit c)) bytes n total in
      (
        n,
        forget (lit_waits c'),
        rw (bare_ended, ← alike c') refl,
        fits,
        arrived
            ∙ sent
            ∙ ap (λ (l : List ℕ). l ++ take n bytes) (promised-lit c)
            ∙ append_assoc c.wire (pending c) (take n bytes),
        idle,
        unmapped,
        why,
      )
