-- ===== src/Linux/Dma/Race/Lost.antt =====
-- Writers of week04/mmio.c that all copy before the first of them queues its job.
use device_driver_on_so_c.Prelude.{
  Each, each_none, each_more, ℕ, ◌+◌, ◌-◌, ◌≤◌, ◌<◌, ◌≡◌, min, refl, sym, ap, ◌∙◌, arith, false,
  List, [], ◌∷◌, ◌++◌, append-nil, append_assoc, map, length, take, drop, take-length-append,
  take_all,
}
use device_driver_on_so_c.Linux.Dma.{Cmdev, buffer_size, tx_callback, load, queue}
use device_driver_on_so_c.Linux.Dma.Send.{tx_done, TxValid}
use device_driver_on_so_c.Linux.Dma.Race.{
  back, copied, Writer, State, Turn, finds_idle, copies, queues, leaves, returns, Step, turns,
  job_ends, Steps, no_more, then_more, begins, has_written,
}

-- `b` once for each message
abbrev pub for_each : List ℕ → List (List ℕ) → List ℕ
for_each b [] = []
for_each b (m ∷ ms) = b ++ for_each b ms

-- Messages of one round
abbrev pub FitsRound : List ℕ → Type 0
FitsRound m = (0 < length m) × (length m ≤ buffer_size)

-- A process that has copied its message
abbrev has_copied : List ℕ → Writer
has_copied message = record (begins message) { stage = copied (length message) }

-- The device waits for the jobs of writers that copied to it, the last of them `b`.
record Loaded (b : List ℕ) (c : Cmdev) : Type 0 where
  valid : TxValid c
  idle : c.tx.queued ≡ false
  last : take c.tx.sg_length c.tx.buf ≡ b

append-Steps : {s s' s'' : State} → Steps s s' → Steps s' s'' → Steps s s''
append-Steps no_more q = q
append-Steps (then_more step p) q = then_more step (append-Steps p q)

-- What writers do, they do beside one more.
beside-Step :
    {s s' : State} (w : Writer)
    → Step s s'
    → Step (record s { writers = w ∷ s.writers }) (record s' { writers = w ∷ s'.writers })
beside-Step w (turns xs v ys e turn) =
    turns (w ∷ xs) v ys (ap (λ (vs : List Writer). w ∷ vs) e) turn
beside-Step w (job_ends busy) = job_ends busy

beside-Steps :
    {s s' : State} (w : Writer)
    → Steps s s'
    → Steps (record s { writers = w ∷ s.writers }) (record s' { writers = w ∷ s'.writers })
beside-Steps w no_more = no_more
beside-Steps w (then_more step p) = then_more (beside-Step w step) (beside-Steps w p)

-- The writer at the front makes a step.
front :
    {c c' : Cmdev} {w w' : Writer} (ws : List Writer)
    → Turn c w c' w'
    → Step (record { device = c; writers = w ∷ ws }) (record { device = c'; writers = w' ∷ ws })
front {c} {w = w} ws turn = turns [] w ws refl turn

load-Loaded : (c : Cmdev) (b : List ℕ) → TxValid c → c.tx.queued ≡ false → Loaded b (load c b)
unfolding load
load-Loaded c b v idle = record {
  valid = record { mapped = v.mapped; lamp = v.lamp };
  idle = idle;
  last = take-length-append b (drop (length b) c.tx.buf);
}

copies_all : (m : List ℕ) → FitsRound m → take (min (length m) buffer_size) (drop 0 m) ≡ m
copies_all m fits = take_all (min (length m) buffer_size) m (omega (arith, fits.0, fits.1))

-- All copy, in their order.
all_copy :
    (c : Cmdev) (ms : List (List ℕ)) (b : List ℕ)
    → TxValid c
    → c.tx.queued ≡ false
    → Each FitsRound ms
    → FitsRound b
    → (c' : Cmdev) × Steps
        (record { device = c; writers = map begins (ms ++ (b ∷ [])) })
        (record { device = c'; writers = map has_copied (ms ++ (b ∷ [])) })
      × Loaded b c'
      × (c'.wire ≡ c.wire)
unfolding load
all_copy c [] b v idle each_none fits = (
  load c b,
  then_more (front [] (finds_idle refl fits.0 idle))
      (then_more (front [] (copies refl (copies_all b fits))) no_more),
  load-Loaded c b v idle,
  refl,
)
all_copy c (m ∷ ms) b v idle (each_more fits_m fits_ms) fits =
    let l = load-Loaded c m v idle in
    let (c', later, l', same) = all_copy (load c m) ms b l.valid l.idle fits_ms fits in
    (
      c',
      then_more (front (map begins (ms ++ (b ∷ []))) (finds_idle refl fits_m.0 idle)) (
          then_more (front (map begins (ms ++ (b ∷ []))) (copies refl (copies_all m fits_m)))
            (beside-Steps (has_copied m) later)),
      l',
      same,
    )

-- A writer that copied hands over what the buffer holds, waits for it and returns.
one_sends :
    (c : Cmdev) (m b : List ℕ) (ws : List Writer)
    → Loaded b c
    → (c' : Cmdev) × Steps
        (record { device = c; writers = has_copied m ∷ ws })
        (record { device = c'; writers = has_written m ∷ ws })
      × Loaded b c'
      × (c'.wire ≡ c.wire ++ b)
unfolding queue tx_callback
one_sends c m b ws l = (
  tx_done (queue c),
  then_more (front ws (queues refl (l.valid.mapped ∙ l.idle))) (
      then_more (job_ends refl) (
        then_more (front ws (leaves refl (omega arith)))
          (then_more (front ws (returns refl refl)) ended))),
  record { valid = record { mapped = refl; lamp = refl }; idle = refl; last = l.last },
  ap (λ (t : List ℕ). c.wire ++ t) l.last,
)
  where
    spent : length m - length m ≡ 0
    spent = omega arith

    from_0 : 0 + length m ≡ length m
    from_0 = omega arith

    ended :
        Steps
          (record {
            device = tx_done (queue c);
            writers =
                record (begins m) { off = 0 + length m; len = length m - length m; stage = back }
                ∷ ws;
          })
          (record { device = tx_done (queue c); writers = has_written m ∷ ws })
    ended = rw (spent, from_0) no_more

-- Those that copied send the last copy, one after the other.
all_send :
    (c : Cmdev) (ms : List (List ℕ)) (b : List ℕ)
    → Loaded b c
    → (c' : Cmdev) × Steps
        (record { device = c; writers = map has_copied ms })
        (record { device = c'; writers = map has_written ms })
      × Loaded b c'
      × (c'.wire ≡ c.wire ++ for_each b ms)
all_send c [] b l = (c, no_more, l, sym (append-nil c.wire))
all_send c (m ∷ ms) b l =
    let (c', first, l', grown) = one_sends c m b (map has_copied ms) l in
    let (c'', later, l'', rest) = all_send c' ms b l' in
    (
      c'',
      append-Steps first (beside-Steps (has_written m) later),
      l'',
      rest ∙ ap (λ (t : List ℕ). t ++ for_each b ms) grown ∙ append_assoc c.wire b (for_each b ms),
    )

-- However many processes write to an idle valid device of week04 at once, each a message of 1 to
-- 4096 bytes, their steps can follow each other so that every write returns the length of its
-- message, the device is idle and valid again, and nothing went out but the last message, once for
-- each of them.
pub last_copy_wins :
    (c : Cmdev) (ms : List (List ℕ)) (b : List ℕ)
    → TxValid c
    → c.tx.queued ≡ false
    → Each FitsRound ms
    → FitsRound b
    → (c' : Cmdev) × Steps
        (record { device = c; writers = map begins (ms ++ (b ∷ [])) })
        (record { device = c'; writers = map has_written (ms ++ (b ∷ [])) })
      × TxValid c'
      × (c'.tx.queued ≡ false)
      × (c'.wire ≡ c.wire ++ for_each b (ms ++ (b ∷ [])))
last_copy_wins c ms b v idle fits_ms fits =
    let (c', copying, l, same) = all_copy c ms b v idle fits_ms fits in
    let (c'', sending, l', grown) = all_send c' (ms ++ (b ∷ [])) b l in
    (
      c'',
      append-Steps copying sending,
      l'.valid,
      l'.idle,
      grown ∙ ap (λ (t : List ℕ). t ++ for_each b (ms ++ (b ∷ []))) same,
    )
