-- ===== src/Linux/Lock/Many/Finish.antt =====
-- Where calls end that nothing new interrupts, on several processors.
use device_driver_on_so_c.Prelude.{
  ℕ, zero, suc, ◌≤◌, ◌≡◌, refl, ap, ◌∙◌, inl, inr, arith, List, [], ◌∷◌, length,
}
use device_driver_on_so_c.Linux.Lock.{
  take_read, give_read, take_write, give_write, wait, work, Code, RwLock,
}
use device_driver_on_so_c.Linux.Lock.Many.{
  ManyReaders, holds_read, holds_write, unfinished, total, Machine, Acts, acts,
}
use device_driver_on_so_c.Linux.Lock.Many.Exclusive.{IsExclusive, Acts-IsExclusive, total-middle}
use device_driver_on_so_c.Linux.Lock.Many.Progress.{can_go_on}

total-le : (f g : Code → ℕ) (cs : List Code) → ((c : Code) → f c ≤ g c) → total f cs ≤ total g cs
total-le f g [] h = omega arith
total-le f g (c ∷ cs) h = omega (arith, h c, total-le f g cs h)

at_most_one : (c : Code) → unfinished c ≤ 1
at_most_one [] = omega arith
at_most_one (a ∷ c) = omega arith

holds_read-le : (c : Code) → holds_read c ≤ unfinished c
holds_read-le [] = omega arith
holds_read-le (take_read ∷ c) = omega arith
holds_read-le (give_read ∷ c) = omega arith
holds_read-le (take_write ∷ c) = omega arith
holds_read-le (give_write ∷ c) = omega arith
holds_read-le (wait ∷ c) = omega (arith, holds_read-le c, at_most_one c)
holds_read-le (work ∷ c) = omega (arith, holds_read-le c, at_most_one c)

holds_write-le : (c : Code) → holds_write c ≤ unfinished c
holds_write-le [] = omega arith
holds_write-le (take_read ∷ c) = omega arith
holds_write-le (give_read ∷ c) = omega arith
holds_write-le (take_write ∷ c) = omega arith
holds_write-le (give_write ∷ c) = omega arith
holds_write-le (wait ∷ c) = omega (arith, holds_write-le c, at_most_one c)
holds_write-le (work ∷ c) = omega (arith, holds_write-le c, at_most_one c)

unfinished-le-length : (c : Code) → unfinished c ≤ length c
unfinished-le-length [] = omega arith
unfinished-le-length (a ∷ c) = omega arith

finished-length : (cs : List Code) → total unfinished cs ≡ 0 → total length cs ≡ 0
finished-length [] h = refl
finished-length ([] ∷ cs) h = omega (arith, finished-length cs (omega arith))
finished-length ((a ∷ c) ∷ cs) h = absurd (omega arith)

-- So many acts
pub data ActsIn (rwlock : RwLock) : ℕ → Machine rwlock → Machine rwlock → Type 0 where
  at_once : {m : Machine rwlock} → ActsIn rwlock 0 m m
  next :
      {n : ℕ} {m m' m'' : Machine rwlock}
      → Acts rwlock m m'
      → ActsIn rwlock n m' m''
      → ActsIn rwlock (suc n) m m''

module _ (rwlock : RwLock) (many : ManyReaders rwlock) where
  open rwlock use {unlocked}

  Acts-length :
      {m m' : Machine rwlock}
      → Acts rwlock m m'
      → total length m.processes ≡ suc (total length m'.processes)
  Acts-length {m} (acts xs a c ys e performed) =
      ap (total length) e
      ∙ omega (arith, total-middle length xs (a ∷ c) ys, total-middle length xs c ys)

  all_done :
      {m : Machine rwlock}
      → total unfinished m.processes ≡ 0
      → IsExclusive rwlock many m
      → m.lock ≡ unlocked
  all_done {m} h v =
      let reads = total-le holds_read unfinished m.processes holds_read-le in
      let writes = total-le holds_write unfinished m.processes holds_write-le in
      elim v.told [
        | inl told ↦ told.1 ∙ ap many.readers (omega arith) ∙ many.readers-zero
        | inr told ↦ absurd (omega arith)
      ]

  pub finishes :
      (n : ℕ) (m : Machine rwlock)
      → total length m.processes ≡ n
      → IsExclusive rwlock many m
      → (m' : Machine rwlock) × ActsIn rwlock n m m'
        × (total unfinished m'.processes ≡ 0)
        × (m'.lock ≡ unlocked)
  finishes zero m e v =
      let none_left : total unfinished m.processes ≡ 0 =
        omega (arith, total-le unfinished length m.processes unfinished-le-length) in
      (m, at_once, none_left, all_done none_left v)
  finishes (suc n) m e v = elim (can_go_on rwlock many v) [
    | inl over ↦ absurd (omega (arith, finished-length m.processes over))
    | inr (m', act) ↦
        let (m'', later, over, free) =
          finishes n m' (omega (arith, Acts-length act)) (Acts-IsExclusive rwlock many act v) in
        (m'', next act later, over, free)
  ]
