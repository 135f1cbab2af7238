-- ===== src/Linux/Lock/Many/Exclusive.antt =====
-- Who holds the lock at the same time, on several processors.
use mathlib.Core.Path.{subst}
use mathlib.Core.Option.{some-injective, none-ne-some}
use device_driver_on_so_c.Prelude.{
  Each, each_more, take_out, put_in, ℕ, zero, suc, ◌+◌, ◌≡◌, refl, sym, ap, ◌∙◌, ◌⊎◌, inl, inr,
  arith, some, List, [], ◌∷◌, ◌++◌,
}
use device_driver_on_so_c.Linux.Lock.{
  Act, take_read, give_read, take_write, give_write, wait, work, Code, RwLock, perform,
}
use device_driver_on_so_c.Linux.Lock.Many.{
  ManyReaders, holds_read, holds_write, total, Machine, Acts, acts, Step, called, interrupted,
  goes_on, Steps, no_more, then_more,
}

-- Code that gives back what it takes, and no more.
pub data Balanced : Code → Type 0 where
  ends : Balanced []
  reads : {c : Code} → holds_read c ≡ 1 → holds_write c ≡ 0 → Balanced c → Balanced (take_read ∷ c)
  writes :
      {c : Code} → holds_read c ≡ 0 → holds_write c ≡ 1 → Balanced c → Balanced (take_write ∷ c)
  unreads :
      {c : Code} → holds_read c ≡ 0 → holds_write c ≡ 0 → Balanced c → Balanced (give_read ∷ c)
  unwrites :
      {c : Code} → holds_read c ≡ 0 → holds_write c ≡ 0 → Balanced c → Balanced (give_write ∷ c)
  waits : {c : Code} → Balanced c → Balanced (wait ∷ c)
  works : {c : Code} → Balanced c → Balanced (work ∷ c)

pub total-middle :
    (f : Code → ℕ) (xs : List Code) (c : Code) (ys : List Code)
    → total f (xs ++ (c ∷ ys)) ≡ f c + total f (xs ++ ys)
total-middle f [] c ys = refl
total-middle f (x ∷ xs) c ys = omega (arith, total-middle f xs c ys)

module _ (rwlock : RwLock) (many : ManyReaders rwlock) where
  open rwlock use {
    Lock, unlocked, writing, write_lock-unlocked, write_unlock-writing, write_lock-writing,
    read_lock, write_lock, read_unlock, write_unlock,
  }
  open many use {
    readers, readers-zero, read_lock-readers, write_lock-readers, read_unlock-readers,
    read_lock-writing,
  }

  -- The lock for so many readers and writers
  abbrev pub Told : ℕ → ℕ → Lock → Type 0
  Told r w l = ((w ≡ 0) × (l ≡ readers r)) ⊎ ((w ≡ 1) × (r ≡ 0) × (l ≡ writing))

  -- An act of a process changes the lock as it changes what the process holds.
  act-Told :
      {a : Act} {c : Code} (l l' : Lock) (r w : ℕ)
      → Balanced (a ∷ c)
      → perform rwlock a l ≡ some l'
      → Told (holds_read (a ∷ c) + r) (holds_write (a ∷ c) + w) l
      → Told (holds_read c + r) (holds_write c + w) l' × Balanced c
  unfolding perform
  act-Told {c = c} l l' r w (reads hr hw b) e (inl (none_writes, is)) =
      let taken = some-injective _ _ (sym e ∙ ap read_lock is ∙ read_lock-readers _) in
      (inl (omega arith, taken ∙ ap readers (omega arith)), b)
  act-Told {c = c} l l' r w (reads hr hw b) e (inr (one, none_reads, is)) =
      absurd (none-ne-some _ (sym (ap read_lock is ∙ read_lock-writing) ∙ e))
  act-Told {c = c} l l' zero w (writes hr hw b) e (inl (none_writes, is)) =
      let taken =
        some-injective _ _ (sym e ∙ ap write_lock (is ∙ readers-zero) ∙ write_lock-unlocked) in
      (inr (omega arith, omega arith, taken), b)
  act-Told {c = c} l l' (suc r) w (writes hr hw b) e (inl (none_writes, is)) = absurd (
      none-ne-some _
        (sym (ap write_lock (is ∙ ap readers (omega arith)) ∙ write_lock-readers r) ∙ e))
  act-Told {c = c} l l' r w (writes hr hw b) e (inr (one, none_reads, is)) =
      absurd (none-ne-some _ (sym (ap write_lock is ∙ write_lock-writing) ∙ e))
  act-Told {c = c} l l' r w (unreads hr hw b) e (inl (none_writes, is)) =
      let given =
        sym (some-injective _ _ e)
        ∙ ap read_unlock (is ∙ ap readers (omega arith))
        ∙ read_unlock-readers r in
      (inl (omega arith, given ∙ ap readers (omega arith)), b)
  act-Told {c = c} l l' r w (unreads hr hw b) e (inr (one, none_reads, is)) = absurd (omega arith)
  act-Told {c = c} l l' r w (unwrites hr hw b) e (inl (none_writes, is)) = absurd (omega arith)
  act-Told {c = c} l l' r w (unwrites hr hw b) e (inr (one, none_reads, is)) =
      let given =
        sym (some-injective _ _ e) ∙ ap write_unlock is ∙ write_unlock-writing ∙ sym readers-zero in
      (inl (omega arith, given ∙ ap readers (omega arith)), b)
  act-Told l l' r w (waits b) e t = (subst (Told _ _) (some-injective _ _ e) t, b)
  act-Told l l' r w (works b) e t = (subst (Told _ _) (some-injective _ _ e) t, b)

  -- The processes give back what they take, and the lock is as those that hold it say.
  pub record IsExclusive (m : Machine rwlock) : Type 0 where
    pub balanced : Each Balanced m.processes
    pub told : Told (total holds_read m.processes) (total holds_write m.processes) m.lock

  pub Acts-IsExclusive : {m m' : Machine rwlock} → Acts rwlock m m' → IsExclusive m → IsExclusive m'
  Acts-IsExclusive (acts {m} {l} xs a c ys e performed) v =
      let (found, others) = take_out xs (a ∷ c) ys (subst (Each Balanced) e v.balanced) in
      let before : (f : Code → ℕ) → total f m.processes ≡ f (a ∷ c) + total f (xs ++ ys) =
        λ f. ap (total f) e ∙ total-middle f xs (a ∷ c) ys in
      let now =
        subst (λ r. Told r (total holds_write m.processes) m.lock) (before holds_read) v.told in
      let now' =
        subst (λ w. Told (holds_read (a ∷ c) + total holds_read (xs ++ ys)) w m.lock)
          (before holds_write) now in
      let (after, rest) =
        act-Told m.lock l (total holds_read (xs ++ ys)) (total holds_write (xs ++ ys)) found
          performed now' in
      record {
        balanced = put_in xs c ys rest others;
        told = rw (total-middle holds_read xs c ys, total-middle holds_write xs c ys) after;
      }

  module _ (Calls Handlers : Code → Type 0)
      (calls : (c : Code) → Calls c → Balanced c × (holds_read c ≡ 0) × (holds_write c ≡ 0))
      (handlers : (c : Code)
        → Handlers c
        → Balanced c × (holds_read c ≡ 0) × (holds_write c ≡ 0)) where
    begins :
        {m : Machine rwlock} {c : Code}
        → Balanced c × (holds_read c ≡ 0) × (holds_write c ≡ 0)
        → IsExclusive m
        → IsExclusive (record m { processes = c ∷ m.processes })
    begins {m} {c} (b, hr, hw) v = record {
      balanced = each_more b v.balanced;
      told =
          subst (λ r. Told r (holds_write c + total holds_write m.processes) m.lock) (omega arith)
            (subst (λ w. Told (total holds_read m.processes) w m.lock) (omega arith) v.told);
    }

    Step-IsExclusive :
        {m m' : Machine rwlock} → Step rwlock Calls Handlers m m' → IsExclusive m → IsExclusive m'
    Step-IsExclusive (called {c = c} call) v = begins (calls c call) v
    Step-IsExclusive (interrupted {c = c} handler) v = begins (handlers c handler) v
    Step-IsExclusive (goes_on step) v = Acts-IsExclusive step v

    pub Steps-IsExclusive :
        {m m' : Machine rwlock} → Steps rwlock Calls Handlers m m' → IsExclusive m → IsExclusive m'
    Steps-IsExclusive no_more v = v
    Steps-IsExclusive (then_more step steps) v = Steps-IsExclusive steps (Step-IsExclusive step v)
