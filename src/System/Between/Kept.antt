-- ===== src/System/Between/Kept.antt =====
-- What the acts in the middle of a call keep.
use mathlib.Core.List.{map-append}
use device_driver_on_so_c.Prelude.{
  ℕ, ◌+◌, ◌-◌, ◌≤◌, ◌≡◌, refl, sym, ap, ◌∙◌, arith, inl, inr, Bool-cases, has, List, [], ◌∷◌, ◌++◌,
  append-nil, append_assoc, map, length, length-append, length-map, take_all, u8, bit_and,
}
use device_driver_on_so_c.Registers.{icr, int_tx, int_rx}
use device_driver_on_so_c.Qemu.Fifo.Contents.{used, contents, length-contents}
use device_driver_on_so_c.Qemu.Pipe.{push}
use device_driver_on_so_c.Qemu.Mmio.{write, set_data}
use device_driver_on_so_c.Qemu.Mmio.Inv.{IsValid, set_data-IsValid, write-IsValid, take_data_lem}
use device_driver_on_so_c.Qemu.Mmio.Refine.{contents-set_data, read-mis, write-icr}
use device_driver_on_so_c.Linux.Pio.{interrupt}
use device_driver_on_so_c.System.Machine.{
  Machine, machine_bus, sent_so_far, host_reads, host_reads-Wakes,
}
use device_driver_on_so_c.System.Between.{
  Act, gets, interrupts, sets, given_by, given, offered, act, act_all, Visited, meanwhile,
}

-- What fits a queue joins it.
push-room : (q xs : List ℕ) → length q + length xs ≤ 31 → push q xs ≡ q ++ map u8 xs
unfolding push
push-room q xs h = ap (λ (l : List ℕ). q ++ map u8 l) (take_all (31 - length q) xs (omega arith))

push-grows : (q xs : List ℕ) → length q ≤ length (push q xs)
unfolding push
push-grows q xs = omega (arith, length-append q (map u8 _))

-- A block after a while in which bytes came from the host and others went to it
pub record IsAfter (came : List ℕ) (m m' : Machine) : Type 0 where
  pub valid : IsValid m'.0
  pub nothing_lost : sent_so_far m' ≡ sent_so_far m
  pub more_room : used m'.0.transmit ≤ used m.0.transmit
  pub still_there : used m.0.receive ≤ used m'.0.receive
  pub all_came :
      used m.0.receive + length came ≤ 31
      → contents m'.0.receive ≡ contents m.0.receive ++ map u8 came

module _ (sleep : Machine → Machine) where
  same_buffers :
      {m m' : Machine}
      → IsValid m'.0
      → m'.1 ≡ m.1
      → m'.0.transmit ≡ m.0.transmit
      → m'.0.receive ≡ m.0.receive
      → IsAfter [] m m'
  same_buffers {m} {m'} v seen tx rx = record {
    valid = v;
    nothing_lost = rw (seen, tx) refl;
    more_room = rw tx (omega arith);
    still_there = rw rx (omega arith);
    all_came = λ h. rw (rx, append-nil) refl;
  }

  interrupt-IsAfter : (m : Machine) → IsValid m.0 → IsAfter [] m (interrupt (machine_bus sleep) m).2
  unfolding interrupt
  interrupt-IsAfter m v = elim (Bool-cases (has (bit_and m.0.ris m.0.imsc) int_tx)) [
    | inl tx ↦ rw (read-mis m.0, tx) (cleared int_tx)
    | inr no_tx ↦ elim (Bool-cases (has (bit_and m.0.ris m.0.imsc) int_rx)) [
      | inl rx ↦ rw (read-mis m.0, no_tx, rx) (cleared int_rx)
      | inr no_rx ↦ rw (read-mis m.0, no_tx, no_rx) (same_buffers v refl refl refl)
    ]
  ]
    where
      cleared : (bits : ℕ) → IsAfter [] m (write m.0 icr bits, m.1)
      cleared bits =
          let kept = write-icr m.0 bits in
          same_buffers (write-IsValid icr bits v) refl kept.3 kept.4

  pub act-IsAfter : (m : Machine) (a : Act) → IsValid m.0 → IsAfter (given_by a) m (act sleep m a)
  unfolding act given_by
  act-IsAfter m gets v =
      let (s', got, valid, emptied, kept) = take_data_lem v in
      record {
        valid = host_reads-Wakes.stays_valid m v;
        nothing_lost = host_reads-Wakes.conserved m v;
        more_room = rw (host_reads, got) (omega arith);
        still_there = rw (host_reads, got) (rw kept (omega arith));
        all_came = λ h. rw (host_reads, got, kept, append-nil) refl;
      }
  act-IsAfter m interrupts v = interrupt-IsAfter m v
  act-IsAfter m (sets xs) v =
      let (pushed, tx) = contents-set_data xs v in
      let grown = push-grows (contents m.0.receive) xs in
      record {
        valid = set_data-IsValid xs v;
        nothing_lost = rw tx refl;
        more_room = rw tx (omega arith);
        still_there = omega (
          arith,
          grown,
          ap length pushed,
          length-contents m.0.receive,
          length-contents (set_data m.0 xs).receive,
        );
        all_came = λ h.
            pushed
            ∙ push-room (contents m.0.receive) xs (omega (arith, length-contents m.0.receive));
      }

  IsAfter-then :
      {came later : List ℕ} {m m' m'' : Machine}
      → IsAfter came m m'
      → IsAfter later m' m''
      → IsAfter (came ++ later) m m''
  IsAfter-then {came} {later} {m} {m'} {m''} first second = record {
    valid = second.valid;
    nothing_lost = second.nothing_lost ∙ first.nothing_lost;
    more_room = omega (arith, first.more_room, second.more_room);
    still_there = omega (arith, first.still_there, second.still_there);
    all_came = λ h.
        let all = first.all_came (omega (arith, length-append came later)) in
        second.all_came (
          omega (
            arith,
            length-append came later,
            ap length all,
            length-append (contents m.0.receive) (map u8 came),
            length-map came u8,
            length-contents m.0.receive,
            length-contents m'.0.receive,
          ))
        ∙ ap (λ (l : List ℕ). l ++ map u8 later) all
        ∙ append_assoc (contents m.0.receive) (map u8 came) (map u8 later)
        ∙ ap (λ (l : List ℕ). contents m.0.receive ++ l) (sym (map-append u8 came later));
  }

  pub act_all-IsAfter :
      (m : Machine) (acts : List Act) → IsValid m.0 → IsAfter (given acts) m (act_all sleep m acts)
  unfolding act_all given
  act_all-IsAfter m [] v = same_buffers v refl refl refl
  act_all-IsAfter m (a ∷ acts) v =
      let now = act-IsAfter m a v in
      IsAfter-then now (act_all-IsAfter (act sleep m a) acts now.valid)

  -- The strings still offered after the acts before one access
  pub meanwhile-IsAfter :
      (b : Visited sleep)
      → IsValid b.0.0
      → (came : List ℕ) × IsAfter came b.0 (meanwhile sleep b).0
        × (offered b.1 ≡ came ++ offered (meanwhile sleep b).1)
  unfolding meanwhile offered
  meanwhile-IsAfter (m, []) v = ([], same_buffers v refl refl refl, refl)
  meanwhile-IsAfter (m, acts ∷ later) v = (given acts, act_all-IsAfter m acts v, refl)
