-- ===== src/Linux/Dma/Bare/Same.antt =====
-- But for the lamps, the driver of week04/mmio.c does what that of week03/mmio-driver.c does.
use device_driver_on_so_c.Prelude.{
  ℕ, zero, suc, ◌+◌, ◌-◌, ◌≡◌, min, refl, arith, Bool, Option, none, some, List, [], ◌∷◌, length,
}
use device_driver_on_so_c.Linux.Kernel.{Outcome, done, oops, running, ◌>>=◌}
use device_driver_on_so_c.Linux.Reading as Reading
use device_driver_on_so_c.Linux.Dma as Dma
use device_driver_on_so_c.Linux.Dma.Bare as Bare

-- The device of week03 that a device of week04 is without its lamps.
unfoldable pub forget : Dma.Cmdev → Bare.Cmdev
forget c = record { rx_size = c.rx_size; tx = c.tx; rx = c.rx; wire = c.wire }

-- What a result becomes when the device in it does.
abbrev pub mapped {ℓ κ} : {A : Type ℓ} {B : Type κ} → (A → B) → Outcome A → Outcome B
mapped f o = o >>= λ a. done (f a)

-- Two steps that agree up to the maps agree when one follows the other.
mapped-bind :
    {A A' B B' : Type 0} (o : Outcome A) (f : A → A') (g : A → Outcome B) (h : B → B')
    (g' : A' → Outcome B')
    → ((a : A) → mapped h (g a) ≡ g' (f a))
    → mapped h (o >>= g) ≡ (mapped f o >>= g')
mapped-bind (done a) f g h g' agree = agree a
mapped-bind oops f g h g' agree = refl
mapped-bind running f g h g' agree = refl

-- The calls that both drivers know: the receive work, the work at the end of the data, the ends of
-- jobs, and writes and reads by the user, from any position and with copies that fail where they do.
pub data Call : Type 0 where
  start_receive : Bool → Bool → Call
  end_receive : ℕ → Call
  tx_end rx_end : Call
  write_call : (ℕ → ℕ → List ℕ) → (ℕ → Bool) → (ℕ → Bool) → ℕ → ℕ → ℕ → Call
  read_call : (ℕ → ℕ) → ℕ → ℕ → Call

-- What the user gets: a count of bytes and the new position, and of a read the bytes.
pub data Result : Type 0 where
  nothing : Result
  count : ℕ → ℕ → Result
  text : ℕ → List ℕ → ℕ → Result

-- What a driver does for each call, with the results and the device after it.
module _ {State : Type 0} (rx_work : State → Bool → Bool → Outcome State)
    (rx_dma_work : State → ℕ → State) (tx_callback rx_callback : State → State)
    (write : (ℕ → ℕ → List ℕ)
      → (ℕ → Bool)
      → (ℕ → Bool)
      → ℕ
      → Option State
      → ℕ
      → ℕ
      → Outcome (ℕ × ℕ × Option State))
    (read : (ℕ → ℕ) → Option State → ℕ → ℕ → Outcome (ℕ × List ℕ × ℕ)) where
  pub call : State → Call → Outcome (Result × State)
  call c (start_receive map_works prep_works) =
      rx_work c map_works prep_works >>= λ c'. done (nothing, c')
  call c (end_receive residue) = done (nothing, rx_dma_work c residue)
  call c tx_end = done (nothing, tx_callback c)
  call c rx_end = done (nothing, rx_callback c)
  call c (write_call copy_in map_works prep_works fuel len ppos) =
      write copy_in map_works prep_works fuel (some c) len ppos >>= λ r. elim r.2 [
        | none ↦ oops
        | some c' ↦ done (count r.0 r.1, c')
      ]
  call c (read_call uncopied len ppos) =
      read uncopied (some c) len ppos >>= λ r. done (text r.0 r.1 r.2, c)

  pub calls : State → List Call → Outcome (List Result × State)
  unfolding call
  calls c [] = done ([], c)
  calls c (k ∷ ks) = call c k >>= λ r. calls r.1 ks >>= λ rs. done (r.0 ∷ rs.0, rs.1)

-- The calls of the two drivers, for a writer that waits.
abbrev pub lit_call : (Dma.Cmdev → Dma.Cmdev) → Dma.Cmdev → Call → Outcome (Result × Dma.Cmdev)
lit_call wait =
    call Dma.rx_work Dma.rx_dma_work Dma.tx_callback Dma.rx_callback
      (λ copy_in. Dma.write copy_in wait) Dma.read

abbrev pub bare_call : (Bare.Cmdev → Bare.Cmdev) → Bare.Cmdev → Call → Outcome (Result × Bare.Cmdev)
bare_call wait =
    call Bare.rx_work Bare.rx_dma_work Bare.tx_callback Bare.rx_callback
      (λ copy_in. Bare.write copy_in wait) Bare.read

pub lit_calls : (Dma.Cmdev → Dma.Cmdev) → Dma.Cmdev → List Call → Outcome (List Result × Dma.Cmdev)
unfolding calls
lit_calls wait =
    calls Dma.rx_work Dma.rx_dma_work Dma.tx_callback Dma.rx_callback
      (λ copy_in. Dma.write copy_in wait) Dma.read

pub bare_calls :
    (Bare.Cmdev → Bare.Cmdev) → Bare.Cmdev → List Call → Outcome (List Result × Bare.Cmdev)
unfolding calls
bare_calls wait =
    calls Bare.rx_work Bare.rx_dma_work Bare.tx_callback Bare.rx_callback
      (λ copy_in. Bare.write copy_in wait) Bare.read

forget-rx_work :
    (c : Dma.Cmdev) (map_works prep_works : Bool)
    → mapped forget (Dma.rx_work c map_works prep_works)
      ≡ Bare.rx_work (forget c) map_works prep_works
unfolding forget Dma.rx_work Bare.rx_work Dma.stop_rx Bare.stop_rx Dma.rx_callback Bare.rx_callback
forget-rx_work c map_works prep_works = ground arith

forget-rx_dma_work :
    (c : Dma.Cmdev) (residue : ℕ)
    → forget (Dma.rx_dma_work c residue) ≡ Bare.rx_dma_work (forget c) residue
unfolding forget Dma.rx_dma_work Bare.rx_dma_work Dma.stop_rx Bare.stop_rx Dma.rx_callback
    Bare.rx_callback
forget-rx_dma_work c residue = ground arith

module _ (copy_in : ℕ → ℕ → List ℕ) (wait : Dma.Cmdev → Dma.Cmdev)
    (bare_wait : Bare.Cmdev → Bare.Cmdev)
    (alike : (c : Dma.Cmdev) → forget (wait c) ≡ bare_wait (forget c))
    (map_works prep_works : ℕ → Bool) where
  pub forget-write_loop :
      (fuel : ℕ) (c : Dma.Cmdev) (off len : ℕ)
      → mapped
          (λ r. (r.0, forget r.1))
          (Dma.write_loop copy_in wait map_works prep_works fuel c off len)
        ≡ Bare.write_loop copy_in bare_wait map_works prep_works fuel (forget c) off len
  unfolding forget Dma.write_loop Dma.load Dma.queue Bare.write_loop
  forget-write_loop zero c off len = refl
  forget-write_loop (suc fuel) c off len =
      let bytes : List ℕ = copy_in off (min len Dma.buffer_size) in
      let next : Dma.Cmdev = Dma.queue (Dma.load (wait c) bytes) in
      rw (← alike c, ← forget-write_loop fuel next (off + length bytes) (len - length bytes))
        (ground arith)

forget-tx_callback : (c : Dma.Cmdev) → forget (Dma.tx_callback c) ≡ Bare.tx_callback (forget c)
unfolding forget Dma.tx_callback Bare.tx_callback
forget-tx_callback c = refl

forget-rx_callback : (c : Dma.Cmdev) → forget (Dma.rx_callback c) ≡ Bare.rx_callback (forget c)
unfolding forget Dma.rx_callback Bare.rx_callback
forget-rx_callback c = refl

abbrev last_wait : {S : Type 0} → ℕ → (S → S) → ℕ × S → Outcome (ℕ × ℕ × Option S)
last_wait ppos wait r = done (r.0, ppos + r.0, some (wait r.1))

abbrev give_count : {S : Type 0} → ℕ × ℕ × Option S → Outcome (Result × S)
give_count r = elim r.2 [ none ↦ oops | some c ↦ done (count r.0 r.1, c) ]

abbrev pub forget_result : {A : Type 0} → A × Dma.Cmdev → A × Bare.Cmdev
forget_result r = (r.0, forget r.1)

forget-read :
    (c : Dma.Cmdev) (uncopied : ℕ → ℕ) (len ppos : ℕ)
    → mapped forget_result (Dma.read uncopied (some c) len ppos >>= λ r. done (text r.0 r.1 r.2, c))
      ≡ (Bare.read uncopied (some (forget c)) len ppos >>= λ r. done (text r.0 r.1 r.2, forget c))
unfolding forget Dma.read Bare.read
forget-read c uncopied len ppos = shown (Reading.read uncopied c.rx.buf c.rx_size len ppos)
  where
    shown :
        (o : Outcome (ℕ × List ℕ × ℕ))
        → mapped forget_result (o >>= λ r. done (text r.0 r.1 r.2, c))
          ≡ (o >>= λ r. done (text r.0 r.1 r.2, forget c))
    shown (done r) = refl
    shown oops = refl
    shown running = refl

module _ (wait : Dma.Cmdev → Dma.Cmdev) (bare_wait : Bare.Cmdev → Bare.Cmdev)
    (alike : (c : Dma.Cmdev) → forget (wait c) ≡ bare_wait (forget c)) where
  -- The last wait of a write, and its count.
  counted :
      (ppos : ℕ) (o : Outcome (ℕ × Dma.Cmdev))
      → mapped forget_result (o >>= last_wait ppos wait >>= give_count)
        ≡ (mapped forget_result o >>= last_wait ppos bare_wait >>= give_count)
  counted ppos (done r) = rw (← alike r.1) refl
  counted ppos oops = refl
  counted ppos running = refl

  forget-call :
      (c : Dma.Cmdev) (k : Call)
      → mapped forget_result (lit_call wait c k) ≡ bare_call bare_wait (forget c) k
  unfolding call Dma.write Bare.write Dma.read Bare.read
  forget-call c (start_receive map_works prep_works) =
      rw (← forget-rx_work c map_works prep_works)
        (mapped-bind (Dma.rx_work c map_works prep_works) forget _ forget_result _ (λ c'. refl))
  forget-call c (end_receive residue) = rw (forget-rx_dma_work c residue) refl
  forget-call c tx_end = rw (forget-tx_callback c) refl
  forget-call c rx_end = rw (forget-rx_callback c) refl
  forget-call c (write_call copy_in map_works prep_works fuel len ppos) =
      rw (← forget-write_loop copy_in wait bare_wait alike map_works prep_works fuel c 0 len)
        (counted ppos (Dma.write_loop copy_in wait map_works prep_works fuel c 0 len))
  forget-call c (read_call uncopied len ppos) = forget-read c uncopied len ppos

  -- Any sequence of receive works, ends of data, ends of jobs, writes and reads, from any positions
  -- and with copies that fail where they do, gives the same results on the driver of week04 as on
  -- that of week03, and devices that differ in the lamps alone, if the writers wait alike.
  pub forget-calls :
      (ks : List Call) (c : Dma.Cmdev)
      → mapped forget_result (lit_calls wait c ks) ≡ bare_calls bare_wait (forget c) ks
  unfolding lit_calls bare_calls calls
  forget-calls [] c = refl
  forget-calls (k ∷ ks) c = rw (← forget-call c k) (
      mapped-bind (lit_call wait c k) forget_result _ forget_result _ (λ r.
        rw (← forget-calls ks r.1)
          (mapped-bind (lit_calls wait r.1 ks) forget_result _ forget_result _ (λ rs. refl))))
