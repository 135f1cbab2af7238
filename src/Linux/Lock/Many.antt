-- ===== src/Linux/Lock/Many.antt =====
-- The lock of the drivers where each call and each handler has a processor of its own, for itself
-- alone: any of them can make the next step, also while another spins or sleeps. With fewer processors
-- a process may never run again, as in Linux.Lock.Stuck. Only lock operations and waits are kept of a
-- call, as in Linux.Lock, and a wait can end at any time.
pub mod Exclusive
pub mod Progress
pub mod Finish
pub mod Drivers
use device_driver_on_so_c.Prelude.{ℕ, zero, suc, ◌+◌, ◌≡◌, none, some, List, [], ◌∷◌, ◌++◌}
use device_driver_on_so_c.Linux.Lock.{
  Act, take_read, give_read, take_write, give_write, wait, work, Code, RwLock, perform,
}

-- What the drivers rely on when several processes read: the lock counts them, and a writer waits
-- until none is left, as a reader does for a writer.
pub record ManyReaders (rwlock : RwLock) : Type 0 where
  pub readers : ℕ → rwlock.Lock
  pub readers-zero : readers 0 ≡ rwlock.unlocked
  pub read_lock-readers : (n : ℕ) → rwlock.read_lock (readers n) ≡ some (readers (suc n))
  pub write_lock-readers : (n : ℕ) → rwlock.write_lock (readers (suc n)) ≡ none
  pub read_unlock-readers : (n : ℕ) → rwlock.read_unlock (readers (suc n)) ≡ readers n
  pub read_lock-writing : rwlock.read_lock rwlock.writing ≡ none

-- Whether the rest of a call gives back the lock which it holds for reading, or for writing: 1 or 0
abbrev pub holds_read : Code → ℕ
holds_read [] = 0
holds_read (take_read ∷ c) = 0
holds_read (give_read ∷ c) = 1
holds_read (take_write ∷ c) = 0
holds_read (give_write ∷ c) = 0
holds_read (wait ∷ c) = holds_read c
holds_read (work ∷ c) = holds_read c

abbrev pub holds_write : Code → ℕ
holds_write [] = 0
holds_write (take_read ∷ c) = 0
holds_write (give_read ∷ c) = 0
holds_write (take_write ∷ c) = 0
holds_write (give_write ∷ c) = 1
holds_write (wait ∷ c) = holds_write c
holds_write (work ∷ c) = holds_write c

-- Whether something is left to do: 1 or 0
abbrev pub unfinished : Code → ℕ
unfinished [] = 0
unfinished (a ∷ c) = 1

abbrev pub total : (Code → ℕ) → List Code → ℕ
total f [] = 0
total f (c ∷ cs) = f c + total f cs

module _ (rwlock : RwLock) where
  open rwlock use {Lock, unlocked}

  pub record Machine : Type 0 where
    pub lock : Lock
    pub processes : List Code

  abbrev pub idle : Machine
  idle = record { lock = unlocked; processes = [] }

  -- One act of one process
  pub data Acts : Machine → Machine → Type 0 where
    acts :
        {m : Machine} {l : Lock} (xs : List Code) (a : Act) (c : Code) (ys : List Code)
        → m.processes ≡ xs ++ ((a ∷ c) ∷ ys)
        → perform rwlock a m.lock ≡ some l
        → Acts m (record { lock = l; processes = xs ++ (c ∷ ys) })

  -- For a driver with these calls and handlers
  module _ (Call Handler : Code → Type 0) where
    pub data Step : Machine → Machine → Type 0 where
      called : {m : Machine} {c : Code} → Call c → Step m (record m { processes = c ∷ m.processes })
      interrupted :
          {m : Machine} {c : Code} → Handler c → Step m (record m { processes = c ∷ m.processes })
      goes_on : {m m' : Machine} → Acts m m' → Step m m'

    pub data Steps : Machine → Machine → Type 0 where
      no_more : {m : Machine} → Steps m m
      then_more : {m m' m'' : Machine} → Step m m' → Steps m' m'' → Steps m m''
