-- ===== src/Linux/Dma/Race/Turns.antt =====
-- One turn of a writer, when no other is in the middle of a round.
use device_driver_on_so_c.Prelude.{
  Each, each_none, each_more, ℕ, ◌+◌, ◌≤◌, ◌≡◌, ◌≢◌, min, refl, sym, ap, ◌∙◌, arith, false, List,
  [], ◌∷◌, ◌++◌, append-nil, length, take, drop, take-append-drop, take-length-append,
  take-append-take-drop,
}
use device_driver_on_so_c.Linux.Writing.Sends.{Readable}
use device_driver_on_so_c.Linux.Dma.{Cmdev, buffer_size, load, queue}
use device_driver_on_so_c.Linux.Dma.Send.{promised, TxValid}
use device_driver_on_so_c.Linux.Dma.Race.{
  Stage, at_wait, past_wait, at_end, back, copied, Writer, Turn, finds_idle, copies, queues,
  gives_up, leaves, returns,
}
use device_driver_on_so_c.Linux.Dma.Race.Apart.{half_way, in_rounds, sent}

-- The device of a writer past its wait is idle, and that of one that copied holds its bytes in the
-- buffer.
pub record Holds (c : Cmdev) (w : Writer) : Type 0 where
  pub message : List ℕ
  pub found : w.stage ≡ past_wait → c.tx.queued ≡ false
  pub user : Readable w.copy_in message
  pub held :
      (n : ℕ)
      → w.stage ≡ copied n
      → (c.tx.queued ≡ false) × (take c.tx.sg_length c.tx.buf ≡ w.copy_in w.off n)

pub not_copied : (g : Stage) (n : ℕ) → half_way g ≡ 0 → g ≢ copied n
not_copied g n h e = absurd (omega (arith, sym h ∙ ap half_way e))

pub not_past : (g : Stage) → half_way g ≡ 0 → g ≢ past_wait
not_past g h e = absurd (omega (arith, sym h ∙ ap half_way e))

-- Those that are not past their wait do not depend on the device.
outside :
    (c c' : Cmdev) (ws : List Writer) → in_rounds ws ≡ 0 → Each (Holds c) ws → Each (Holds c') ws
outside c c' [] h each_none = each_none
outside c c' (w ∷ ws) h (each_more p ps) =
    each_more
      (record {
        message = p.message;
        user = p.user;
        found = λ e. absurd (not_past w.stage (omega arith) e);
        held = λ n e. absurd (not_copied w.stage n (omega arith) e);
      })
      (outside c c' ws (omega arith) ps)

-- A turn, seen from its writer
pub record Fair (c : Cmdev) (w : Writer) (c' : Cmdev) (w' : Writer) : Type 0 where
  pub valid : TxValid c'
  pub holds : Holds c' w'
  pub q : List ℕ
  pub grown : sent w' ≡ sent w ++ q
  pub told : promised c' ≡ promised c ++ q

take-take : (k : ℕ) (xs : List ℕ) → take (length (take k xs)) xs ≡ take k xs
take-take k xs =
    ap (take (length (take k xs))) (sym (take-append-drop k xs))
    ∙ take-length-append (take k xs) (drop k xs)

sent-more :
    (w : Writer) (message : List ℕ) (n : ℕ)
    → Readable w.copy_in message
    → w.copy_in 0 (w.off + n) ≡ sent w ++ w.copy_in w.off n
sent-more w message n user =
    rw (user 0 (w.off + n), user 0 w.off, user w.off n)
      (sym (take-append-take-drop w.off n message))

-- Whether the copy is made: 1 or 0
abbrev has_copy : Stage → ℕ
has_copy at_wait = 0
has_copy past_wait = 0
has_copy at_end = 0
has_copy back = 0
has_copy (copied n) = 1

past_not_copied : (n : ℕ) → past_wait ≢ copied n
past_not_copied n e = absurd (omega (arith, ap has_copy e))

abbrev how_many : Stage → ℕ
how_many at_wait = 0
how_many past_wait = 0
how_many at_end = 0
how_many back = 0
how_many (copied n) = n

copy-length :
    (copy_in : ℕ → ℕ → List ℕ) (message : List ℕ) (off k : ℕ)
    → Readable copy_in message
    → copy_in off (length (copy_in off k)) ≡ copy_in off k
copy-length copy_in message off k user =
    rw (user off (length (copy_in off k)), user off k) (take-take k (drop off message))

-- A writer moves on, and the device does not change.
stays :
    (c : Cmdev) (w : Writer) (g : Stage)
    → half_way g ≡ 0
    → TxValid c
    → Holds c w
    → Fair c w c (record w { stage = g })
stays c w g out v h = record {
  valid = v;
  holds = record {
    message = h.message;
    user = h.user;
    found = λ e. absurd (not_past g out e);
    held = λ n e. absurd (not_copied g n out e);
  };
  q = [];
  grown = sym (append-nil (sent w));
  told = sym (append-nil (promised c));
}

pub Turn-Fair :
    {c c' : Cmdev} {w w' : Writer} → Turn c w c' w' → TxValid c → Holds c w → Fair c w c' w'
unfolding load queue
Turn-Fair {c} {w = w} (finds_idle at more idle) v h = record {
  valid = v;
  holds = record {
    message = h.message;
    user = h.user;
    found = λ e. idle;
    held = λ n e. absurd (past_not_copied n e);
  };
  q = [];
  grown = sym (append-nil (sent w));
  told = sym (append-nil (promised c));
}
Turn-Fair {c} {w = w} (copies {bytes = bytes} at copied_in) v h = record {
  valid = record { mapped = v.mapped; lamp = v.lamp };
  holds = record {
    message = h.message;
    user = h.user;
    found = λ e. h.found at;
    held = λ n e. (
      h.found at,
      take-length-append bytes (drop (length bytes) c.tx.buf)
          ∙ sym (again ∙ copied_in)
          ∙ ap (λ (k : ℕ). w.copy_in w.off k) (ap how_many e),
    );
  };
  q = [];
  grown = sym (append-nil (sent w));
  told = rw (h.found at) (sym (append-nil c.wire));
}
  where
    again : w.copy_in w.off (length bytes) ≡ w.copy_in w.off (min w.len buffer_size)
    again =
        ap (λ (l : List ℕ). w.copy_in w.off (length l)) (sym copied_in)
        ∙ copy-length w.copy_in h.message w.off (min w.len buffer_size) h.user
Turn-Fair {c} {w = w} (queues {n = n} at free) v h = record {
  valid = record { mapped = refl; lamp = refl };
  holds = record {
    message = h.message;
    user = h.user;
    found = λ e. absurd (not_past at_wait refl e);
    held = λ n e. absurd (not_copied at_wait n refl e);
  };
  q = w.copy_in w.off n;
  grown = sent-more w h.message n h.user;
  told = let (idle, loaded) = h.held n at in rw (idle, loaded) refl;
}
Turn-Fair {c} {w = w} (gives_up at) v h = stays c w at_end refl v h
Turn-Fair {c} {w = w} (leaves at over) v h = stays c w at_end refl v h
Turn-Fair {c} {w = w} (returns at idle) v h = stays c w back refl v h

-- What a turn leaves to the others
pub Turn-others :
    {c c' : Cmdev} {w w' : Writer} (ws : List Writer)
    → Turn c w c' w'
    → half_way w.stage + in_rounds ws ≤ 1
    → half_way w'.stage + in_rounds ws ≤ 1
    → Each (Holds c) ws
    → Each (Holds c') ws
Turn-others ws (finds_idle at more idle) before after hs = hs
Turn-others {c} ws (copies {bytes = bytes} at copied_in) before after hs =
    outside c (load c bytes) ws (omega arith) hs
Turn-others {c} ws (queues at free) before after hs =
    outside c (queue c) ws (omega (arith, ap half_way at)) hs
Turn-others ws (gives_up at) before after hs = hs
Turn-others ws (leaves at over) before after hs = hs
Turn-others ws (returns at idle) before after hs = hs
