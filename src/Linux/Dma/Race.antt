-- ===== src/Linux/Dma/Race.antt =====
-- Several processes in `comento_mmio_write` of week04/mmio.c, which takes no lock: the steps that
-- they make beside each other and beside the controller.
pub mod Lost
pub mod Apart
mod Turns
pub mod Merging
mod Tests
use device_driver_on_so_c.Prelude.{
  ℕ, ◌+◌, ◌-◌, ◌<◌, ◌≡◌, min, false, true, List, [], ◌∷◌, ◌++◌, length, take, drop,
}
use device_driver_on_so_c.Linux.Dma.{Cmdev, buffer_size, load, queue}
use device_driver_on_so_c.Linux.Dma.Send.{tx_done}

-- Where a writer is: before the wait of a round, after it and before the copy, after the copy of so many bytes, before the last
-- wait, and returned.
pub data Stage : Type 0 where
  at_wait past_wait at_end back : Stage
  copied : ℕ → Stage

-- A process in `comento_mmio_write`; `off` is `written_bytes`.
pub record Writer : Type 0 where
  pub copy_in : ℕ → ℕ → List ℕ
  pub off : ℕ
  pub len : ℕ
  pub stage : Stage

pub record State : Type 0 where
  pub device : Cmdev
  pub writers : List Writer

-- What a writer does in one step, if no signal wakes it. A list that is mapped already cannot be
-- mapped; a round that cannot map its list or prepare its job is the last.
pub data Turn : Cmdev → Writer → Cmdev → Writer → Type 0 where
  finds_idle :
      {c : Cmdev} {w : Writer}
      → w.stage ≡ at_wait
      → 0 < w.len
      → c.tx.queued ≡ false
      → Turn c w c (record w { stage = past_wait })
  copies :
      {c : Cmdev} {w : Writer} {bytes : List ℕ}
      → w.stage ≡ past_wait
      → w.copy_in w.off (min w.len buffer_size) ≡ bytes
      → Turn c w (load c bytes) (record w { stage = copied (length bytes) })
  queues :
      {c : Cmdev} {w : Writer} {n : ℕ}
      → w.stage ≡ copied n
      → c.tx.mapped ≡ false
      → Turn c w (queue c) (record w { off = w.off + n; len = w.len - n; stage = at_wait })
  gives_up :
      {c : Cmdev} {w : Writer} {n : ℕ}
      → w.stage ≡ copied n
      → Turn c w c (record w { stage = at_end })
  leaves :
      {c : Cmdev} {w : Writer}
      → w.stage ≡ at_wait
      → w.len ≡ 0
      → Turn c w c (record w { stage = at_end })
  returns :
      {c : Cmdev} {w : Writer}
      → w.stage ≡ at_end
      → c.tx.queued ≡ false
      → Turn c w c (record w { stage = back })

-- A step of a writer, or the end of the job in flight
pub data Step : State → State → Type 0 where
  turns :
      {s : State} {c : Cmdev} {w' : Writer} (xs : List Writer) (w : Writer) (ys : List Writer)
      → s.writers ≡ xs ++ (w ∷ ys)
      → Turn s.device w c w'
      → Step s (record { device = c; writers = xs ++ (w' ∷ ys) })
  job_ends :
      {s : State} → s.device.tx.queued ≡ true → Step s (record s { device = tx_done s.device })

pub data Steps : State → State → Type 0 where
  no_more : {s : State} → Steps s s
  then_more : {s s' s'' : State} → Step s s' → Steps s' s'' → Steps s s''

-- A process that begins to write `message` and one that returned its length
abbrev pub begins : List ℕ → Writer
begins message = record {
  copy_in = λ off n. take n (drop off message);
  off = 0;
  len = length message;
  stage = at_wait;
}

abbrev pub has_written : List ℕ → Writer
has_written message = record (begins message) { off = length message; len = 0; stage = back }
