-- ===== src/Linux/Lock.antt =====
-- The `rwlock_t lock` of the drivers, on one processor: which code holds it, which spins for it, and
-- what interrupts come in between. Of a call only its lock operations and its waits are kept; all
-- else that it does is `work`, during which an interrupt may come. A process leaves the processor
-- when it ends or goes to sleep, and a spinning one keeps it, since `write_lock` and `read_lock`
-- disable preemption.
pub mod Calls
pub mod Stuck
pub mod Many
mod Tests
use device_driver_on_so_c.Prelude.{
  ℕ, ◌≡◌, Bool, true, false, Option, none, some, List, [], ◌∷◌, ◌++◌,
}

-- `wait` is `wait_event_interruptible`.
pub data Act : Type 0 where
  take_read give_read take_write give_write wait work : Act

abbrev pub Code : Type 0
Code = List Act

-- The kernel's `rwlock_t`, as far as the drivers rely on it: how it is taken when nobody holds it,
-- given back, and that it is not given to a second writer. `none` is a call that spins.
pub record RwLock : Type 1 where
  pub Lock : Type 0
  pub unlocked : Lock
  pub reading : Lock
  pub writing : Lock
  pub read_lock : Lock → Option Lock
  pub write_lock : Lock → Option Lock
  pub read_unlock : Lock → Lock
  pub write_unlock : Lock → Lock
  pub read_lock-unlocked : read_lock unlocked ≡ some reading
  pub write_lock-unlocked : write_lock unlocked ≡ some writing
  pub read_unlock-reading : read_unlock reading ≡ unlocked
  pub write_unlock-writing : write_unlock writing ≡ unlocked
  pub write_lock-writing : write_lock writing ≡ none

module _ (rwlock : RwLock) where
  open rwlock use {Lock, unlocked, read_lock, write_lock, read_unlock, write_unlock}

  -- The lock after an act; `none` where the act spins.
  unfoldable pub perform : Act → Lock → Option Lock
  perform take_read l = read_lock l
  perform give_read l = some (read_unlock l)
  perform take_write l = write_lock l
  perform give_write l = some (write_unlock l)
  perform wait l = some l
  perform work l = some l

  unfoldable pub blocked : Code → Lock → Bool
  unfolding perform
  blocked [] l = false
  blocked (a ∷ c) l = elim (perform a l) [ none ↦ true | some l' ↦ false ]

  -- The processor: the interrupt handler that runs, if any, the process below it, and the processes
  -- that are ready or asleep.
  pub record Machine : Type 0 where
    pub lock : Lock
    pub handler : Code
    pub process : Code
    pub ready : List Code
    pub asleep : List Code

  abbrev pub idle : Machine
  idle = record { lock = unlocked; handler = []; process = []; ready = []; asleep = [] }

  -- Whether the processor spins: a handler runs to its end before the process goes on.
  unfoldable pub spins_in : Code → Code → Lock → Bool
  unfolding blocked
  spins_in [] process l = blocked process l
  spins_in (a ∷ c) process l = blocked (a ∷ c) l

  unfoldable pub spins : Machine → Bool
  unfolding spins_in
  spins m = spins_in m.handler m.process m.lock

  -- For a driver with these calls and interrupt handlers
  module _ (Call Handler : Code → Type 0) where
    pub data Step : Machine → Machine → Type 0 where
      called : {m : Machine} {c : Code} → Call c → Step m (record m { ready = c ∷ m.ready })
      picked :
          {m : Machine} (xs : List Code) (c : Code) (ys : List Code)
          → m.handler ≡ []
          → m.process ≡ []
          → m.ready ≡ xs ++ (c ∷ ys)
          → Step m (record m { process = c; ready = xs ++ ys })
      interrupted :
          {m : Machine} {c : Code} → m.handler ≡ [] → Handler c → Step m (record m { handler = c })
      handler_acts :
          {m : Machine} {a : Act} {c : Code} {l : Lock}
          → m.handler ≡ a ∷ c
          → perform a m.lock ≡ some l
          → Step m (record m { handler = c; lock = l })
      process_acts :
          {m : Machine} {a : Act} {c : Code} {l : Lock}
          → m.handler ≡ []
          → m.process ≡ a ∷ c
          → perform a m.lock ≡ some l
          → Step m (record m { process = c; lock = l })
      sleeps :
          {m : Machine} {c : Code}
          → m.handler ≡ []
          → m.process ≡ wait ∷ c
          → Step m (record m { process = []; asleep = c ∷ m.asleep })
      wakes :
          {m : Machine} (xs : List Code) (c : Code) (ys : List Code)
          → m.asleep ≡ xs ++ (c ∷ ys)
          → Step m (record m { asleep = xs ++ ys; ready = c ∷ m.ready })

    -- Any number of steps
    pub data Steps : Machine → Machine → Type 0 where
      no_more : {m : Machine} → Steps m m
      then_more : {m m' m'' : Machine} → Step m m' → Steps m' m'' → Steps m m''
