-- ===== src/System/Between/Overrun.antt =====
-- The receive work of week02/mmio-driver.c when the host goes on setting strings: its loop ends only
-- when it finds the block empty, and does not look at the 32 bytes of rx_buf.
use mathlib.Core.Bool.{false≢true}
use device_driver_on_so_c.Prelude.{
  ℕ, zero, suc, ◌+◌, ◌-◌, ◌<◌, ◌≡◌, refl, ap, ◌∙◌, arith, inl, inr, Bool, true, false, Bool-cases,
  has, List, [], ◌∷◌, map, length, length-append, length-map, length-take, length-set, take, set,
  u8,
}
use device_driver_on_so_c.Registers.{dr, fr, flag_rxfe}
use device_driver_on_so_c.Qemu.Fifo.Contents.{used, contents, length-contents}
use device_driver_on_so_c.Qemu.Pipe.{push}
use device_driver_on_so_c.Qemu.Mmio.{read, write, set_data}
use device_driver_on_so_c.Qemu.Mmio.Inv.{IsValid, read-IsValid}
use device_driver_on_so_c.Qemu.Mmio.Refine.{contents-set_data}
use device_driver_on_so_c.Linux.Kernel.{oops}
use device_driver_on_so_c.Linux.Pio.{Cmdev, rx_loop, rx_work}
use device_driver_on_so_c.Linux.Pio.Loop.{rx_loop-more, rx_loop-outside}
use device_driver_on_so_c.System.Machine.{Machine, has_rxfe}
use device_driver_on_so_c.System.Between.{
  Act, gets, interrupts, sets, Visits, act, act_all, meanwhile, between_bus,
}
use device_driver_on_so_c.System.Between.Kept.{act-IsAfter, act_all-IsAfter}

-- Whether a string that is not empty is set.
unfoldable pub feeds : List Act → Bool
feeds [] = false
feeds (gets ∷ acts) = feeds acts
feeds (interrupts ∷ acts) = feeds acts
feeds (sets [] ∷ acts) = feeds acts
feeds (sets (x ∷ xs) ∷ acts) = true

-- Before each of the next reads of FR, of so many with a read of DR before each, a string is set.
pub data Fed : ℕ → Visits → Type 0 where
  enough : {later : Visits} → Fed zero later
  again :
      {n : ℕ} {acts acts' : List Act} {later : Visits}
      → feeds acts' ≡ true
      → Fed n later
      → Fed (suc n) (acts ∷ acts' ∷ later)

push-some : (q : List ℕ) (x : ℕ) (xs : List ℕ) → 0 < length (push q (x ∷ xs))
unfolding push
push-some q x xs =
    let taken : List ℕ = take (31 - length q) (x ∷ xs) in
    omega (
      arith,
      length-append q (map u8 taken),
      length-map taken u8,
      length-take (31 - length q) (x ∷ xs),
    )

module _ (sleep : Machine → Machine) where
  used-set :
      (m : Machine) (x : ℕ) (xs : List ℕ)
      → IsValid m.0
      → 0 < used (act sleep m (sets (x ∷ xs))).0.receive
  unfolding act
  used-set m x xs v = omega (
    arith,
    push-some (contents m.0.receive) x xs,
    ap length (contents-set_data (x ∷ xs) v).0,
    length-contents (set_data m.0 (x ∷ xs)).receive,
  )

  feeds-used :
      (m : Machine) (acts : List Act)
      → IsValid m.0
      → feeds acts ≡ true
      → 0 < used (act_all sleep m acts).0.receive
  unfolding feeds act_all
  feeds-used m [] v h = absurd (false≢true h)
  feeds-used m (gets ∷ acts) v h =
      feeds-used (act sleep m gets) acts (act-IsAfter sleep m gets v).valid h
  feeds-used m (interrupts ∷ acts) v h =
      feeds-used (act sleep m interrupts) acts (act-IsAfter sleep m interrupts v).valid h
  feeds-used m (sets [] ∷ acts) v h =
      feeds-used (act sleep m (sets [])) acts (act-IsAfter sleep m (sets []) v).valid h
  feeds-used m (sets (x ∷ xs) ∷ acts) v h =
      let now = act-IsAfter sleep m (sets (x ∷ xs)) v in
      let later = act_all-IsAfter sleep (act sleep m (sets (x ∷ xs))) acts now.valid in
      omega (arith, later.still_there, used-set m x xs v)

  -- The block that a read of FR finds after a string was set says that it is not empty.
  fed-flag :
      (m : Machine) (acts : List Act) (later : Visits)
      → IsValid m.0
      → feeds acts ≡ true
      → let (flag, b) = (between_bus sleep).readl (m, acts ∷ later) fr in
        (has flag flag_rxfe ≡ false) × IsValid b.0.0 × (b.1 ≡ later)
  unfolding meanwhile read
  fed-flag m acts later v h =
      let valid = (act_all-IsAfter sleep m acts v).valid in
      let fed = feeds-used m acts v h in
      (
        elim (Bool-cases (has (act_all sleep m acts).0.flag flag_rxfe)) [
          | inl empty ↦ absurd (omega (arith, (has_rxfe valid).0 empty))
          | inr more ↦ more
        ],
        valid,
        refl,
      )

  rx_loop_overruns :
      (n fuel i : ℕ) (m : Machine) (later : Visits) (flag : ℕ) (buf : List ℕ)
      → has flag flag_rxfe ≡ false
      → IsValid m.0
      → Fed n later
      → length buf ≡ i + n
      → n < fuel
      → rx_loop (between_bus sleep) fuel (m, later) flag i buf ≡ oops
  unfolding meanwhile act_all
  rx_loop_overruns n zero i m later flag buf more v fed e h = absurd (omega arith)
  rx_loop_overruns n (suc fuel) i m later flag buf more v enough e h =
      rx_loop-outside (between_bus sleep) fuel (m, later) flag i buf more (omega arith)
  rx_loop_overruns n (suc fuel) i m later flag buf more v
        (again {n = k} {acts} {acts'} {later = rest} feeding fed) e h =
      let (x, b) = (between_bus sleep).readl (m, acts ∷ acts' ∷ rest) dr in
      let valid = read-IsValid dr (act_all-IsAfter sleep m acts v).valid in
      let (flag', b') = (between_bus sleep).readl b fr in
      let (more', valid', left) = fed-flag b.0 acts' rest valid feeding in
      rx_loop-more (between_bus sleep) fuel (m, acts ∷ acts' ∷ rest) flag i buf more (omega arith)
      ∙ rx_loop_overruns k fuel (i + 1) b'.0 rest flag' (set buf i (u8 x)) more' valid' fed
          (omega (arith, length-set buf i (u8 x))) (omega arith)

  -- When the host sets a string that is not empty before each of the first 33 reads of FR, whatever
  -- it and the interrupt handler do besides, the receive work of week02 on a valid block stores
  -- behind the 32 bytes of rx_buf, with fuel for more than 32 rounds.
  pub rx_work_overruns :
      (fuel rx_size : ℕ) (m : Machine) (rx_buf : List ℕ) (acts : List Act) (later : Visits)
      → let cmdev : Cmdev (between_bus sleep) = record {
        base = (m, acts ∷ later);
        rx_buf = rx_buf;
        rx_size = rx_size;
      } in
        32 < fuel
        → IsValid m.0
        → length rx_buf ≡ 32
        → feeds acts ≡ true
        → Fed 32 later
        → rx_work (between_bus sleep) fuel cmdev ≡ oops
  unfolding rx_work read meanwhile write
  rx_work_overruns fuel rx_size m rx_buf acts later h v full feeding fed =
      let (flag, b) = (between_bus sleep).readl (m, acts ∷ later) fr in
      let (more, valid, left) = fed-flag m acts later v feeding in
      rw (rx_work, rx_loop_overruns 32 fuel 0 b.0 later flag rx_buf more valid fed full h) refl
