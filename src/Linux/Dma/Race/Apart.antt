-- ===== src/Linux/Dma/Race/Apart.antt =====
-- Writers of week04/mmio.c of which no two are ever in the middle of a round: what they do, and what
-- they have sent.
use device_driver_on_so_c.Prelude.{ℕ, ◌+◌, ◌≤◌, List, [], ◌∷◌, ◌++◌}
use device_driver_on_so_c.Linux.Dma.Race.{
  Stage, at_wait, past_wait, at_end, back, copied, Writer, State, Step,
}

-- Whether a writer is past the wait of a round and has not queued its job: 1 or 0
abbrev pub half_way : Stage → ℕ
half_way at_wait = 0
half_way past_wait = 1
half_way at_end = 0
half_way back = 0
half_way (copied n) = 1

abbrev pub in_rounds : List Writer → ℕ
in_rounds [] = 0
in_rounds (w ∷ ws) = half_way w.stage + in_rounds ws

-- Steps through states in which at most one is
pub data StepsApart : State → State → Type 0 where
  no_step : {s : State} → StepsApart s s
  then_step :
      {s s' s'' : State}
      → Step s s'
      → in_rounds s'.writers ≤ 1
      → StepsApart s' s''
      → StepsApart s s''

-- The bytes that a writer has counted
abbrev pub sent : Writer → List ℕ
sent w = w.copy_in 0 w.off

-- What `copy_from_user` reads for a writer
abbrev pub reads : Writer → ℕ → ℕ → List ℕ
reads w = w.copy_in

-- The lists can be cut into pieces that, each list's in its order, make up the last argument.
pub data Merges : List (List ℕ) → List ℕ → Type 0 where
  no_lists : Merges [] []
  empty_list : {xs : List (List ℕ)} {b : List ℕ} → Merges xs b → Merges ([] ∷ xs) b
  piece :
      {b : List ℕ} (xs : List (List ℕ)) (p q : List ℕ) (ys : List (List ℕ))
      → Merges (xs ++ (p ∷ ys)) b
      → Merges (xs ++ ((p ++ q) ∷ ys)) (b ++ q)
