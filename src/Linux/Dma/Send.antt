-- ===== src/Linux/Dma/Send.antt =====
-- `comento_mmio_write` of week04/mmio.c: which bytes the controller moves to the device.
use device_driver_on_so_c.Prelude.{
  ℕ, zero, suc, ◌+◌, ◌-◌, ◌≤◌, ◌<◌, ◌≡◌, ◌⊎◌, min, refl, sym, ap, ◌∙◌, arith, Bool, true, false,
  ◌&&◌, some, List, ◌++◌, append_assoc, ltb, Bool-cases, inl, inr, if◌then◌else◌, length, take,
  drop, take-length-append,
}
use device_driver_on_so_c.Linux.Kernel.{done, oops}
use device_driver_on_so_c.Linux.Writing.Sends.{Readable, length-chunk, chunk-append-rest}
use device_driver_on_so_c.Linux.Dma.{
  Cmdev, buffer_size, tx_callback, load, queue, write_loop, write,
}

-- The job in flight ends: the controller has moved the list, and calls back.
abbrev pub tx_done : Cmdev → Cmdev
tx_done c = tx_callback (record c { wire = c.wire ++ take c.tx.sg_length c.tx.buf })

-- A writer that is not woken by a signal waits until the job in flight ends, if there is one.
abbrev pub Waits : (Cmdev → Cmdev) → Type 0
Waits wait = (c : Cmdev) → wait c ≡ (if c.tx.queued then tx_done c else c)

-- All that went to the device or is on the way.
abbrev pub promised : Cmdev → List ℕ
promised c = if c.tx.queued then c.wire ++ take c.tx.sg_length c.tx.buf else c.wire

-- The list is mapped, and the lamp on, exactly while a job is queued.
pub record TxValid (c : Cmdev) : Type 0 where
  pub mapped : c.tx.mapped ≡ c.tx.queued
  pub lamp : c.led_tx ≡ c.tx.queued

module _ (copy_in : ℕ → ℕ → List ℕ) (wait : Cmdev → Cmdev) (waits : Waits wait) where
  -- After the wait nothing is queued, mapped or lit, and what was promised has arrived.
  pub settled :
      (c : Cmdev)
      → TxValid c
      → ((wait c).tx.queued ≡ false)
        × ((wait c).tx.mapped ≡ false)
        × ((wait c).led_tx ≡ false)
        × ((wait c).wire ≡ promised c)
  unfolding tx_callback
  settled c v = ground (arith, waits c)

  module _ (map_works prep_works : ℕ → Bool) (bytes : List ℕ) (user : Readable copy_in bytes) where
    -- A round that hands its job to the controller.
    handed_over :
        (c : Cmdev) (chunk : List ℕ)
        → TxValid c
        → let c' = queue (load (wait c) chunk) in TxValid c' × (promised c' ≡ promised c ++ chunk)
    unfolding queue load
    handed_over c chunk v =
        let (idle, unmapped, dark, arrived) = settled c v in
        (
          record { mapped = refl; lamp = refl },
          rw (take-length-append chunk (drop (length chunk) (wait c).tx.buf), arrived) refl,
        )

    -- A round that finds no mapping, or no job, leaves an idle device.
    not_handed : (c : Cmdev) (chunk : List ℕ) → TxValid c → TxValid (load (wait c) chunk)
    unfolding load
    not_handed c chunk v =
        let (idle, unmapped, dark, arrived) = settled c v in
        record { mapped = unmapped ∙ sym idle; lamp = dark ∙ sym idle }

    still_promised :
        (c : Cmdev) (chunk : List ℕ) → TxValid c → promised (load (wait c) chunk) ≡ promised c
    unfolding load
    still_promised c chunk v = let (idle, unmapped, dark, arrived) = settled c v in rw idle arrived

    pub loop_lem :
        (fuel : ℕ) (c : Cmdev) (off len : ℕ)
        → off + len ≡ length bytes
        → len < fuel
        → TxValid c
        → (n : ℕ) × (c' : Cmdev) × (write_loop copy_in wait map_works prep_works fuel c off len
            ≡ done (n, c'))
          × TxValid c'
          × (n ≤ length bytes)
          × (promised c' ++ drop n bytes ≡ promised c ++ drop off bytes)
          × ((n ≡ length bytes) ⊎ (map_works n && prep_works n ≡ false))
    unfolding write_loop
    loop_lem zero c off len e h v = absurd (omega arith)
    loop_lem (suc fuel) c off len e h v = elim (Bool-cases (ltb 0 len)) [
      | inl more ↦
          let k : ℕ = min len buffer_size in
          let chunk : List ℕ = copy_in off k in
          let some_left : 0 < len = ground arith in
          let (idle, unmapped, dark, arrived) = settled c v in
          elim (Bool-cases (map_works off && prep_works off)) [
            | inl both ↦
                let (v', grown) = handed_over c chunk v in
                let (n, c', ended, v'', fits, total, why) =
                  loop_lem fuel (queue (load (wait c) chunk)) (off + length chunk)
                    (len - length chunk) (omega (arith, length-chunk copy_in bytes user off k))
                    (omega (arith, length-chunk copy_in bytes user off k)) v' in
                (
                  n,
                  c',
                  rw (more, unmapped, both) ended,
                  v'',
                  fits,
                  total
                      ∙ ap (λ (l : List ℕ). l ++ drop (off + length chunk) bytes) grown
                      ∙ append_assoc (promised c) chunk (drop (off + length chunk) bytes)
                      ∙ ap (λ (l : List ℕ). promised c ++ l)
                          (chunk-append-rest copy_in bytes user off k (omega arith)),
                  why,
                )
            | inr either ↦ (
              off,
              load (wait c) chunk,
              rw (more, unmapped, either) refl,
              not_handed c chunk v,
              omega arith,
              ap (λ (l : List ℕ). l ++ drop off bytes) (still_promised c chunk v),
              inr either,
            )
          ]
      | inr over ↦ (off, c, rw over refl, v, omega arith, refl, inl (ground arith))
    ]

    -- A write by DMA of a readable buffer to a device whose transmit mapping and lamp follow its
    -- job always returns, with at most one round per byte and whatever the controller answers: the
    -- bytes it counts, and no others, have arrived in order behind all that was promised, nothing
    -- is queued, mapped or lit, and it stops early only where the list cannot be mapped or the job
    -- not prepared, if no signal wakes the writer and no other process writes meanwhile.
    pub write_arrives :
        (fuel : ℕ) (c : Cmdev) (ppos : ℕ)
        → length bytes < fuel
        → TxValid c
        → (n : ℕ) × (c' : Cmdev) × (write copy_in wait map_works prep_works fuel
              (some c)
              (length bytes)
              ppos
            ≡ done (n, ppos + n, some c'))
          × (n ≤ length bytes)
          × (c'.wire ++ drop n bytes ≡ promised c ++ bytes)
          × (c'.tx.queued ≡ false)
          × (c'.tx.mapped ≡ false)
          × (c'.led_tx ≡ false)
          × ((n ≡ length bytes) ⊎ (map_works n && prep_works n ≡ false))
    unfolding write
    write_arrives fuel c ppos h v =
        let (n, c', ended, v', fits, total, why) =
          loop_lem fuel c 0 (length bytes) (omega arith) h v in
        let (idle, unmapped, dark, arrived) = settled c' v' in
        (
          n,
          wait c',
          rw (write, ended) refl,
          fits,
          ap (λ (l : List ℕ). l ++ drop n bytes) arrived ∙ total,
          idle,
          unmapped,
          dark,
          why,
        )

-- A write by DMA of at least one byte whose wait a signal ends while a job is queued on a valid
-- device maps the list of the job in flight a second time.
pub write_signalled :
    (copy_in : ℕ → ℕ → List ℕ) (map_works prep_works : ℕ → Bool) (fuel len ppos : ℕ) (c : Cmdev)
    → TxValid c
    → c.tx.queued ≡ true
    → 0 < len
    → write copy_in (λ d. d) map_works prep_works (suc fuel) (some c) len ppos ≡ oops
unfolding write write_loop load
write_signalled copy_in map_works prep_works fuel len ppos c v busy h =
    rw (write, more, v.mapped ∙ busy) refl
  where
    more : ltb 0 len ≡ true
    more = ground arith
