-- ===== src/Linux/Lock/Stuck.antt =====
-- The writes of week02/mmio-driver.c and week04/mmio-memcpy.c beside the receive work, and the button
-- of week04/mmio.c above it, with their lock on one processor.
use mathlib.Core.Bool.{false≢true}
use mathlib.Core.List.{cons≢nil, head-eq_of_cons-eq}
use mathlib.Core.Option.{some-injective, none-ne-some}
use mathlib.Core.Path.{subst}
use device_driver_on_so_c.Prelude.{
  ℕ, suc, ◌≡◌, refl, sym, ap, ◌∙◌, Bool, true, false, some, [], ◌∷◌,
}
use device_driver_on_so_c.Linux.Lock.{
  Act, take_read, give_read, take_write, give_write, wait, work, Code, RwLock, perform, Machine,
  idle, Step, called, picked, interrupted, handler_acts, process_acts, sleeps, wakes, Steps,
  no_more, then_more,
}
use device_driver_on_so_c.Linux.Lock.Calls.{
  Driver, pio, dma_lamps, dma_memcpy, Call, pio_writes, pio_receives, lamps_receives, memcpy_writes,
  memcpy_receives, Handler, interrupts, bare_tx, lamps_tx, memcpy_tx, logging_tx, lamps_button,
  memcpy_button, waits_then, rx_work, button_interrupt,
}

-- Code that leaves a lock alone which is held for writing: it only works, or waits for the lock.
data Harmless : Code → Type 0 where
  done_with : Harmless []
  only_works : {c : Code} → Harmless c → Harmless (work ∷ c)
  tries : {c : Code} → Harmless (take_write ∷ c)

Handler-Harmless : {d : Driver} {c : Code} → Handler d c → Harmless c
Handler-Harmless interrupts = only_works done_with
Handler-Harmless bare_tx = only_works done_with
Handler-Harmless lamps_tx = only_works done_with
Handler-Harmless memcpy_tx = only_works done_with
Handler-Harmless logging_tx = only_works done_with
Handler-Harmless lamps_button = tries
Handler-Harmless memcpy_button = tries

-- What is left of a write that goes to sleep for the first time, with the lock held.
pub data Sleeper : Driver → Code → Type 0 where
  in_pio : (bytes : ℕ) → Sleeper pio (work ∷ waits_then bytes (give_write ∷ []))
  in_memcpy : (rounds : ℕ) → Sleeper dma_memcpy (work ∷ waits_then rounds (wait ∷ give_write ∷ []))

is_write : Act → Bool
is_write take_write = true
is_write a = false

false≢write : {a : Act} {c c' : Code} → take_write ∷ c ≡ a ∷ c' → is_write a ≡ true
unfolding is_write
false≢write e = sym (ap is_write (head-eq_of_cons-eq e))

module _ (rwlock : RwLock) where
  open rwlock use {Lock, unlocked, writing, write_lock-unlocked, write_lock-writing}

  no_room : (a : Act) (l : Lock) → is_write a ≡ true → ¬ (perform rwlock a writing ≡ some l)
  unfolding perform is_write
  no_room take_write l h e = none-ne-some l (sym write_lock-writing ∙ e)
  no_room take_read l h e = false≢true h
  no_room give_read l h e = false≢true h
  no_room give_write l h e = false≢true h
  no_room wait l h e = false≢true h
  no_room work l h e = false≢true h

  Harmless-acts :
      {a : Act} {c : Code} (l : Lock)
      → Harmless (a ∷ c)
      → perform rwlock a writing ≡ some l
      → (l ≡ writing) × Harmless c
  unfolding perform
  Harmless-acts l (only_works rest) e = (sym (some-injective _ _ e), rest)
  Harmless-acts l tries e = absurd (none-ne-some l (sym write_lock-writing ∙ e))

  -- A process that waits for a lock which another one holds.
  record IsWaiting (c : Code) (m : Machine rwlock) : Type 0 where
    spinning : m.process ≡ take_write ∷ c
    held : m.lock ≡ writing
    harmless : Harmless m.handler

  -- A handler that waits for a lock which the process below it holds.
  record IsTopped (c process : Code) (m : Machine rwlock) : Type 0 where
    topped : m.handler ≡ take_write ∷ c
    below : m.process ≡ process
    held : m.lock ≡ writing

  -- Whatever comes, such a process waits on, and no process takes its place.
  Step-IsWaiting :
      {d : Driver} {c : Code} {m m' : Machine rwlock}
      → Step rwlock (Call d) (Handler d) m m'
      → IsWaiting c m
      → IsWaiting c m'
  unfolding is_write
  Step-IsWaiting (called call) w = record {
    spinning = w.spinning;
    held = w.held;
    harmless = w.harmless;
  }
  Step-IsWaiting (picked xs c ys none_handled none_runs e) w =
      absurd (cons≢nil (sym w.spinning ∙ none_runs))
  Step-IsWaiting (interrupted none_handled handler) w = record {
    spinning = w.spinning;
    held = w.held;
    harmless = Handler-Harmless handler;
  }
  Step-IsWaiting (handler_acts {a = a} {c = c} {l = l} e performed) w =
      let (same, rest) =
        Harmless-acts l (subst Harmless e w.harmless)
          (sym (ap (perform rwlock a) w.held) ∙ performed) in
      record { spinning = w.spinning; held = same; harmless = rest }
  Step-IsWaiting (process_acts {a = a} {l = l} none_handled e performed) w = absurd (
      no_room a l (false≢write (sym w.spinning ∙ e))
        (sym (ap (perform rwlock a) w.held) ∙ performed))
  Step-IsWaiting (sleeps none_handled e) w = absurd (false≢true (false≢write (sym w.spinning ∙ e)))
  Step-IsWaiting (wakes xs c ys e) w = record {
    spinning = w.spinning;
    held = w.held;
    harmless = w.harmless;
  }

  Steps-IsWaiting :
      {d : Driver} {c : Code} {m m' : Machine rwlock}
      → Steps rwlock (Call d) (Handler d) m m'
      → IsWaiting c m
      → IsWaiting c m'
  Steps-IsWaiting no_more w = w
  Steps-IsWaiting (then_more step steps) w = Steps-IsWaiting steps (Step-IsWaiting step w)

  Step-IsTopped :
      {d : Driver} {c p : Code} {m m' : Machine rwlock}
      → Step rwlock (Call d) (Handler d) m m'
      → IsTopped c p m
      → IsTopped c p m'
  Step-IsTopped (called call) w = record { topped = w.topped; below = w.below; held = w.held }
  Step-IsTopped (picked xs c ys none_handled none_runs e) w =
      absurd (cons≢nil (sym w.topped ∙ none_handled))
  Step-IsTopped (interrupted none_handled handler) w =
      absurd (cons≢nil (sym w.topped ∙ none_handled))
  Step-IsTopped (handler_acts {a = a} {l = l} e performed) w = absurd (
      no_room a l (false≢write (sym w.topped ∙ e)) (sym (ap (perform rwlock a) w.held) ∙ performed))
  Step-IsTopped (process_acts none_handled e performed) w =
      absurd (cons≢nil (sym w.topped ∙ none_handled))
  Step-IsTopped (sleeps none_handled e) w = absurd (cons≢nil (sym w.topped ∙ none_handled))
  Step-IsTopped (wakes xs c ys e) w = record { topped = w.topped; below = w.below; held = w.held }

  Steps-IsTopped :
      {d : Driver} {c p : Code} {m m' : Machine rwlock}
      → Steps rwlock (Call d) (Handler d) m m'
      → IsTopped c p m
      → IsTopped c p m'
  Steps-IsTopped no_more w = w
  Steps-IsTopped (then_more step steps) w = Steps-IsTopped steps (Step-IsTopped step w)

  -- The receive work on the processor, and a write asleep with the lock
  abbrev pub asleep_with_lock : Code → Machine rwlock
  asleep_with_lock left = record {
    lock = writing;
    handler = [];
    process = rx_work;
    ready = [];
    asleep = left ∷ [];
  }

  Sleeper-reached :
      {d : Driver} {left : Code}
      → Sleeper d left
      → Steps rwlock (Call d) (Handler d) (idle rwlock) (asleep_with_lock left)
  unfolding perform waits_then
  Sleeper-reached (in_pio bytes) = then_more (called (pio_writes (suc bytes))) (
      then_more (picked [] _ [] refl refl refl) (
        then_more (process_acts refl refl write_lock-unlocked) (
          then_more (process_acts refl refl refl) (
            then_more (sleeps refl refl) (
              then_more (called pio_receives)
                (then_more (picked [] _ [] refl refl refl) no_more))))))
  Sleeper-reached (in_memcpy rounds) = then_more (called (memcpy_writes (suc rounds))) (
      then_more (picked [] _ [] refl refl refl) (
        then_more (process_acts refl refl write_lock-unlocked) (
          then_more (sleeps refl refl) (
            then_more (called memcpy_receives)
              (then_more (picked [] _ [] refl refl refl) no_more)))))

  -- On one processor, with a lock that obeys its laws, a write of week02 or of week04/mmio-memcpy.c
  -- can go to sleep with the lock held and leave the processor to the receive work: and whatever
  -- steps follow, the work spins for the lock, which stays held for writing.
  pub sleeping_writer :
      {d : Driver} {left : Code} {m : Machine rwlock}
      → Sleeper d left
      → Steps rwlock (Call d) (Handler d) (asleep_with_lock left) m
      → Steps rwlock (Call d) (Handler d) (idle rwlock) (asleep_with_lock left)
        × (m.process ≡ rx_work)
        × (m.lock ≡ writing)
  sleeping_writer sleeper steps =
      let w =
        Steps-IsWaiting steps (record { spinning = refl; held = refl; harmless = done_with }) in
      (Sleeper-reached sleeper, w.spinning, w.held)

  -- The receive work in the middle of its section, and the handler of the button above it
  abbrev pub button_pressed : Machine rwlock
  button_pressed = record {
    lock = writing;
    handler = button_interrupt;
    process = work ∷ give_write ∷ [];
    ready = [];
    asleep = [];
  }

  button_reached : Steps rwlock (Call dma_lamps) (Handler dma_lamps) (idle rwlock) button_pressed
  unfolding perform
  button_reached = then_more (called lamps_receives) (
      then_more (picked [] _ [] refl refl refl) (
        then_more (process_acts refl refl write_lock-unlocked)
          (then_more (interrupted refl lamps_button) no_more)))

  -- On one processor, with a lock that obeys its laws, the button of week04 can be pressed while
  -- the receive work holds the lock: and whatever steps follow, the handler spins for the lock
  -- above the receive work, which never gets to give it back.
  pub button_waits :
      {m : Machine rwlock}
      → Steps rwlock (Call dma_lamps) (Handler dma_lamps) button_pressed m
      → Steps rwlock (Call dma_lamps) (Handler dma_lamps) (idle rwlock) button_pressed
        × (m.handler ≡ button_interrupt)
        × (m.process ≡ work ∷ give_write ∷ [])
        × (m.lock ≡ writing)
  button_waits steps =
      let w = Steps-IsTopped steps (record { topped = refl; below = refl; held = refl }) in
      (button_reached, w.topped, w.below, w.held)
