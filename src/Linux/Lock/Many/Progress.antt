-- ===== src/Linux/Lock/Many/Progress.antt =====
-- Whether a process can go on, on several processors.
use device_driver_on_so_c.Prelude.{
  ℕ, zero, suc, ◌≡◌, ◌<◌, refl, ap, ◌∙◌, ◌⊎◌, inl, inr, arith, some, List, [], ◌∷◌, ◌++◌,
}
use device_driver_on_so_c.Linux.Lock.{
  Act, take_read, give_read, take_write, give_write, wait, work, Code, RwLock, perform,
}
use device_driver_on_so_c.Linux.Lock.Many.{
  ManyReaders, holds_read, holds_write, unfinished, total, Machine, Acts, acts,
}
use device_driver_on_so_c.Linux.Lock.Many.Exclusive.{IsExclusive}

some_or_none : (n : ℕ) → (0 < n) ⊎ (n ≡ 0)
some_or_none zero = inr refl
some_or_none (suc n) = inl (omega arith)

-- Some process counts, if there is something to count.
found :
    (f : Code → ℕ) (cs : List Code)
    → 0 < total f cs
    → (xs : List Code) × (c : Code) × (ys : List Code) × (cs ≡ xs ++ (c ∷ ys)) × (0 < f c)
found f [] h = absurd (omega arith)
found f (c ∷ cs) h = elim (some_or_none (f c)) [
  | inl here ↦ ([], c, cs, refl, here)
  | inr later ↦
      let (xs, c', ys, e, h') = found f cs (omega arith) in
      (c ∷ xs, c', ys, ap (λ (l : List Code). c ∷ l) e, h')
]

module _ (rwlock : RwLock) (many : ManyReaders rwlock) where
  open rwlock use {Lock, unlocked, reading, writing, write_lock-unlocked, read_lock-unlocked}
  open many use {readers, readers-zero}

  -- Who holds the lock can act.
  reader_acts :
      (c : Code) (l : Lock)
      → 0 < holds_read c
      → (a : Act) × (c' : Code) × (l' : Lock) × (c ≡ a ∷ c') × (perform rwlock a l ≡ some l')
  unfolding perform
  reader_acts [] l h = absurd (omega arith)
  reader_acts (take_read ∷ c) l h = absurd (omega arith)
  reader_acts (give_read ∷ c) l h = (give_read, c, _, refl, refl)
  reader_acts (take_write ∷ c) l h = absurd (omega arith)
  reader_acts (give_write ∷ c) l h = absurd (omega arith)
  reader_acts (wait ∷ c) l h = (wait, c, _, refl, refl)
  reader_acts (work ∷ c) l h = (work, c, _, refl, refl)

  writer_acts :
      (c : Code) (l : Lock)
      → 0 < holds_write c
      → (a : Act) × (c' : Code) × (l' : Lock) × (c ≡ a ∷ c') × (perform rwlock a l ≡ some l')
  unfolding perform
  writer_acts [] l h = absurd (omega arith)
  writer_acts (take_read ∷ c) l h = absurd (omega arith)
  writer_acts (give_read ∷ c) l h = absurd (omega arith)
  writer_acts (take_write ∷ c) l h = absurd (omega arith)
  writer_acts (give_write ∷ c) l h = (give_write, c, _, refl, refl)
  writer_acts (wait ∷ c) l h = (wait, c, _, refl, refl)
  writer_acts (work ∷ c) l h = (work, c, _, refl, refl)

  -- Any process can, while nobody holds it.
  free_acts :
      (c : Code) (l : Lock)
      → l ≡ unlocked
      → 0 < unfinished c
      → (a : Act) × (c' : Code) × (l' : Lock) × (c ≡ a ∷ c') × (perform rwlock a l ≡ some l')
  unfolding perform
  free_acts [] l e h = absurd (omega arith)
  free_acts (take_read ∷ c) l e h = (take_read, c, reading, refl, rw e read_lock-unlocked)
  free_acts (give_read ∷ c) l e h = (give_read, c, _, refl, refl)
  free_acts (take_write ∷ c) l e h = (take_write, c, writing, refl, rw e write_lock-unlocked)
  free_acts (give_write ∷ c) l e h = (give_write, c, _, refl, refl)
  free_acts (wait ∷ c) l e h = (wait, c, _, refl, refl)
  free_acts (work ∷ c) l e h = (work, c, _, refl, refl)

  -- The step of a machine in which some process that counts can act
  some_process_goes :
      {m : Machine rwlock} (f : Code → ℕ)
      → 0 < total f m.processes
      → ((c : Code)
          → 0 < f c
          → (a : Act) × (c' : Code) × (l' : Lock) × (c ≡ a ∷ c')
            × (perform rwlock a m.lock ≡ some l'))
      → (m' : Machine rwlock) × Acts rwlock m m'
  some_process_goes {m} f h can =
      let (xs, c, ys, e, counted) = found f m.processes h in
      let (a, c', l', split, performed) = can c counted in
      (
        record { lock = l'; processes = xs ++ (c' ∷ ys) },
        acts xs a c' ys (e ∙ ap (λ (c : Code). xs ++ (c ∷ ys)) split) performed,
      )

  pub can_go_on :
      {m : Machine rwlock}
      → IsExclusive rwlock many m
      → (total unfinished m.processes ≡ 0) ⊎ ((m' : Machine rwlock) × Acts rwlock m m')
  can_go_on {m} v = elim v.told [
    | inr (one, none_reads, is) ↦
        inr (some_process_goes holds_write (omega arith) (λ c. writer_acts c m.lock))
    | inl (none_writes, is) ↦ elim (some_or_none (total holds_read m.processes)) [
      | inl some_read ↦ inr (some_process_goes holds_read some_read (λ c. reader_acts c m.lock))
      | inr none_reads ↦ elim (some_or_none (total unfinished m.processes)) [
        | inl some_left ↦ inr (
            some_process_goes unfinished some_left
              (λ c. free_acts c m.lock (is ∙ ap readers none_reads ∙ readers-zero)))
        | inr all_done ↦ inl all_done
      ]
    ]
  ]
