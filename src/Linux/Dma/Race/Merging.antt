-- ===== src/Linux/Dma/Race/Merging.antt =====
-- What arrives of the messages of such writers.
use device_driver_on_so_c.Prelude.{
  Each, each_none, each_more, take_out, put_in, ℕ, ◌+◌, ◌≤◌, ◌≡◌, refl, sym, ap, ◌∙◌, arith, true,
  List, [], ◌∷◌, ◌++◌, append-nil, append_assoc, map,
}
use mathlib.Core.List.{map-append}
use mathlib.Core.Path.{subst}
use device_driver_on_so_c.Linux.Dma.{Cmdev, tx_callback}
use device_driver_on_so_c.Linux.Dma.Send.{tx_done, promised, TxValid}
use device_driver_on_so_c.Linux.Dma.Race.{
  at_wait, Writer, State, Turn, finds_idle, copies, queues, gives_up, leaves, returns, Step, turns,
  job_ends, begins,
}
use device_driver_on_so_c.Linux.Dma.Race.Apart.{
  half_way, in_rounds, StepsApart, no_step, then_step, sent, reads, Merges, no_lists, empty_list,
  piece,
}
use device_driver_on_so_c.Linux.Dma.Race.Turns.{Holds, Turn-Fair, Turn-others, not_copied, not_past}

record SoFar (before : List ℕ) (s : State) : Type 0 where
  valid : TxValid s.device
  holds : Each (Holds s.device) s.writers
  b : List ℕ
  merged : Merges (map sent s.writers) b
  told : promised s.device ≡ before ++ b

in_rounds-middle :
    (xs : List Writer) (w : Writer) (ys : List Writer)
    → in_rounds (xs ++ (w ∷ ys)) ≡ half_way w.stage + in_rounds (xs ++ ys)
in_rounds-middle [] w ys = refl
in_rounds-middle (x ∷ xs) w ys = omega (arith, in_rounds-middle xs w ys)

merge-piece :
    (xs : List Writer) (w w' : Writer) (ys : List Writer) (q b : List ℕ)
    → sent w' ≡ sent w ++ q
    → Merges (map sent (xs ++ (w ∷ ys))) b
    → Merges (map sent (xs ++ (w' ∷ ys))) (b ++ q)
merge-piece xs w w' ys q b grown m =
    rw (map-append sent xs (w' ∷ ys), grown)
      (piece (map sent xs) (sent w) q (map sent ys) (rw (← map-append sent xs (w ∷ ys)) m))

in_order :
    (xs : List Writer) (w : Writer) (ys : List Writer)
    → in_rounds (xs ++ (w ∷ ys)) ≤ 1
    → half_way w.stage + in_rounds (xs ++ ys) ≤ 1
in_order xs w ys h = omega (arith, in_rounds-middle xs w ys)

tx_done-Holds : (c : Cmdev) (ws : List Writer) → Each (Holds c) ws → Each (Holds (tx_done c)) ws
unfolding tx_callback
tx_done-Holds c [] each_none = each_none
tx_done-Holds c (w ∷ ws) (each_more h hs) =
    each_more
      (record {
        message = h.message;
        user = h.user;
        found = λ e. refl;
        held = λ n e. (refl, (h.held n e).1);
      })
      (tx_done-Holds c ws hs)

module _ (before : List ℕ) where
  at-SoFar :
      (c c' : Cmdev) (xs : List Writer) (w w' : Writer) (ys : List Writer)
      → Turn c w c' w'
      → in_rounds (xs ++ (w ∷ ys)) ≤ 1
      → in_rounds (xs ++ (w' ∷ ys)) ≤ 1
      → SoFar before (record { device = c; writers = xs ++ (w ∷ ys) })
      → SoFar before (record { device = c'; writers = xs ++ (w' ∷ ys) })
  at-SoFar c c' xs w w' ys turn once once' so_far =
      let (h, hs) = take_out xs w ys so_far.holds in
      let fair = Turn-Fair turn so_far.valid h in
      let others =
        Turn-others (xs ++ ys) turn (in_order xs w ys once) (in_order xs w' ys once') hs in
      record {
        valid = fair.valid;
        holds = put_in xs w' ys fair.holds others;
        b = so_far.b ++ fair.q;
        merged = merge-piece xs w w' ys fair.q so_far.b fair.grown so_far.merged;
        told =
            fair.told
            ∙ ap (λ (l : List ℕ). l ++ fair.q) so_far.told
            ∙ append_assoc before so_far.b fair.q;
      }

  end-SoFar :
      (s : State)
      → s.device.tx.queued ≡ true
      → SoFar before s
      → SoFar before (record s { device = tx_done s.device })
  unfolding tx_callback
  end-SoFar s busy so_far = record {
    valid = record { mapped = refl; lamp = refl };
    holds = tx_done-Holds s.device s.writers so_far.holds;
    b = so_far.b;
    merged = so_far.merged;
    told = rw (← so_far.told, busy) refl;
  }

  Step-SoFar :
      {s s' : State}
      → Step s s'
      → in_rounds s.writers ≤ 1
      → in_rounds s'.writers ≤ 1
      → SoFar before s
      → SoFar before s'
  Step-SoFar {s} (turns {c = c'} {w'} xs w ys e turn) once once' so_far =
      at-SoFar s.device c' xs w w' ys turn (rw (← e) once) once' (
        subst (λ (ws : List Writer). SoFar before (record { device = s.device; writers = ws })) e
          so_far)
  Step-SoFar {s} (job_ends busy) once once' so_far = end-SoFar s busy so_far

  Steps-SoFar :
      {s s' : State} → StepsApart s s' → in_rounds s.writers ≤ 1 → SoFar before s → SoFar before s'
  Steps-SoFar no_step once so_far = so_far
  Steps-SoFar (then_step step once' steps) once so_far =
      Steps-SoFar steps once' (Step-SoFar step once once' so_far)

begin-SoFar :
    (c : Cmdev) (ms : List (List ℕ))
    → TxValid c
    → Each (Holds c) (map begins ms)
      × Merges (map sent (map begins ms)) []
      × (in_rounds (map begins ms) ≡ 0)
begin-SoFar c [] v = (each_none, no_lists, refl)
begin-SoFar c (m ∷ ms) v =
    let (holds, merged, none_in) = begin-SoFar c ms v in
    (
      each_more
          (record {
            message = m;
            user = λ off n. refl;
            found = λ e. absurd (not_past at_wait refl e);
            held = λ n e. absurd (not_copied at_wait n refl e);
          })
          holds,
      empty_list merged,
      omega arith,
    )

Turn-reads : {c c' : Cmdev} {w w' : Writer} → Turn c w c' w' → reads w' ≡ reads w
Turn-reads (finds_idle at more idle) = refl
Turn-reads (copies at copied_in) = refl
Turn-reads (queues at free) = refl
Turn-reads (gives_up at) = refl
Turn-reads (leaves at over) = refl
Turn-reads (returns at idle) = refl

Step-reads : {s s' : State} → Step s s' → map reads s'.writers ≡ map reads s.writers
Step-reads {s} (turns {w' = w'} xs w ys e turn) =
    rw (e, map-append reads xs (w' ∷ ys), map-append reads xs (w ∷ ys), Turn-reads turn) refl
Step-reads (job_ends busy) = refl

Steps-reads : {s s' : State} → StepsApart s s' → map reads s'.writers ≡ map reads s.writers
Steps-reads no_step = refl
Steps-reads (then_step step once steps) = Steps-reads steps ∙ Step-reads step

-- However processes that write messages to a valid device of week04 follow each other and the ends
-- of the jobs, if no two of them are ever both past the wait of a round and not yet at its job, and
-- no signal wakes them: what arrived or is on the way beyond what was promised is made up of pieces
-- of what each writer has counted, each of these in its order and whole, each writer still reads
-- its own message, and the device stays valid.
pub nothing_lost :
    (c c' : Cmdev) (ms : List (List ℕ)) (ws : List Writer)
    → TxValid c
    → StepsApart
        (record { device = c; writers = map begins ms })
        (record { device = c'; writers = ws })
    → (b : List ℕ) × Merges (map sent ws) b
      × (promised c' ≡ promised c ++ b)
      × (map reads ws ≡ map reads (map begins ms))
      × TxValid c'
nothing_lost c c' ms ws v steps =
    let (holds, merged, none_in) = begin-SoFar c ms v in
    let so_far = Steps-SoFar (promised c) steps (omega (arith, none_in)) (record {
      valid = v;
      holds = holds;
      b = [];
      merged = merged;
      told = sym (append-nil (promised c));
    }) in
    (so_far.b, so_far.merged, so_far.told, Steps-reads steps, so_far.valid)
