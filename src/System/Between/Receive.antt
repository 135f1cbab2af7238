-- ===== src/System/Between/Receive.antt =====
-- The receive work of week02/mmio-driver.c with the host and the interrupt handler in its middle.
use mathlib.Core.List.{map-append}
use device_driver_on_so_c.Prelude.{
  ℕ, zero, suc, ◌+◌, ◌≤◌, ◌<◌, ◌≡◌, refl, sym, ap, ◌∙◌, arith, inl, inr, Bool-cases, has, List, [],
  ◌∷◌, ◌++◌, append_assoc, map, length, length-append, length-map, length-set, take, set, u8,
}
use device_driver_on_so_c.Registers.{dr, fr, flag_rxfe}
use device_driver_on_so_c.Qemu.Fifo.Contents.{used, contents, contents_of_unused, length-contents}
use device_driver_on_so_c.Qemu.Mmio.{read}
use device_driver_on_so_c.Qemu.Mmio.Inv.{IsValid, read-IsValid}
use device_driver_on_so_c.Qemu.Mmio.Refine.{read-fr, contents-read-dr}
use device_driver_on_so_c.Linux.Kernel.{done}
use device_driver_on_so_c.Linux.Pio.{Cmdev, rx_loop, rx_work}
use device_driver_on_so_c.Linux.Pio.Loop.{rx_loop-empty, rx_loop-more}
use device_driver_on_so_c.System.Machine.{Machine, sent_so_far, has_rxfe}
use device_driver_on_so_c.System.Receive.{take-set}
use device_driver_on_so_c.System.Between.{offered, Visited, meanwhile, between_bus}
use device_driver_on_so_c.System.Between.Kept.{meanwhile-IsAfter}

u8-u8 : (xs : List ℕ) → map u8 (map u8 xs) ≡ map u8 xs
u8-u8 [] = refl
u8-u8 (x ∷ xs) = ground (arith, u8-u8 xs)

module _ (sleep : Machine → Machine) where
  -- All that is still to be received: what waits in the block, and what will be set.
  abbrev pub to_come : Visited sleep → List ℕ
  to_come b = map u8 (contents b.0.0.receive) ++ map u8 (offered b.1)

  abbrev pub bytes_to_come : Visited sleep → ℕ
  bytes_to_come b = used b.0.0.receive + length (offered b.1)

  -- Until the next access nothing of it is lost, if no more than 31 bytes are to come.
  record IsLater (b b' : Visited sleep) : Type 0 where
    valid : IsValid b'.0.0
    nothing_lost : sent_so_far b'.0 ≡ sent_so_far b.0
    still_there : used b.0.0.receive ≤ used b'.0.0.receive
    same_bytes : to_come b' ≡ to_come b
    same_count : bytes_to_come b' ≡ bytes_to_come b

  meanwhile-IsLater :
      (b : Visited sleep) → IsValid b.0.0 → bytes_to_come b ≤ 31 → IsLater b (meanwhile sleep b)
  meanwhile-IsLater b v few =
      let b' : Visited sleep = meanwhile sleep b in
      let (came, after, split) = meanwhile-IsAfter sleep b v in
      let counted : length (offered b.1) ≡ length came + length (offered b'.1) =
        ap length split ∙ length-append came (offered b'.1) in
      let all = after.all_came (omega arith) in
      record {
        valid = after.valid;
        nothing_lost = after.nothing_lost;
        still_there = after.still_there;
        same_bytes =
            ap (λ (l : List ℕ). map u8 l ++ map u8 (offered b'.1)) all
            ∙ ap (λ (l : List ℕ). l ++ map u8 (offered b'.1))
                (map-append u8 (contents b.0.0.receive) (map u8 came)
                  ∙ ap (λ (l : List ℕ). map u8 (contents b.0.0.receive) ++ l) (u8-u8 came))
            ∙ append_assoc (map u8 (contents b.0.0.receive)) (map u8 came) (map u8 (offered b'.1))
            ∙ ap (λ (l : List ℕ). map u8 (contents b.0.0.receive) ++ l)
                (sym (ap (map u8) split ∙ map-append u8 came (offered b'.1)));
        same_count = omega (
          arith,
          ap length all,
          length-append (contents b.0.0.receive) (map u8 came),
          length-map came u8,
          length-contents b.0.0.receive,
          length-contents b'.0.0.receive,
        );
      }

  -- A read of DR takes the next of these bytes.
  record IsTaken (b : Visited sleep) (x : ℕ) (b' : Visited sleep) : Type 0 where
    valid : IsValid b'.0.0
    nothing_lost : sent_so_far b'.0 ≡ sent_so_far b.0
    oldest : to_come b ≡ u8 x ∷ to_come b'
    one_less : bytes_to_come b ≡ suc (bytes_to_come b')

  read-IsTaken :
      (b : Visited sleep)
      → IsValid b.0.0
      → bytes_to_come b ≤ 31
      → 0 < used b.0.0.receive
      → let (x, b') = (between_bus sleep).readl b dr in IsTaken b x b'
  read-IsTaken b v few waiting =
      let b₁ : Visited sleep = meanwhile sleep b in
      let later = meanwhile-IsLater b v few in
      let (oldest, fewer, kept) = contents-read-dr later.valid (omega (arith, later.still_there)) in
      record {
        valid = read-IsValid dr later.valid;
        nothing_lost = ap (λ f. b₁.0.1 ++ contents f) kept ∙ later.nothing_lost;
        oldest =
            sym later.same_bytes ∙ ap (λ (l : List ℕ). map u8 l ++ map u8 (offered b₁.1)) oldest;
        one_less = omega (arith, later.same_count, later.still_there, fewer);
      }

  read-IsLater :
      (b : Visited sleep)
      → IsValid b.0.0
      → bytes_to_come b ≤ 31
      → let (flag, b') = (between_bus sleep).readl b fr in (flag ≡ b'.0.0.flag) × IsLater b b'
  unfolding read meanwhile
  read-IsLater b v few =
      let b₁ : Visited sleep = meanwhile sleep b in
      let later = meanwhile-IsLater b v few in (ap (λ r. r.0) (read-fr b₁.0.0), later)

  -- Where the loop of the receive work is, with so many bytes stored, and where it stops.
  rx_loop_between :
      (fuel i : ℕ) (b : Visited sleep) (flag : ℕ) (buf : List ℕ)
      → flag ≡ b.0.0.flag
      → IsValid b.0.0
      → bytes_to_come b ≤ 31
      → bytes_to_come b < fuel
      → i + bytes_to_come b ≤ length buf
      → (n : ℕ) × (b' : Visited sleep) × (buf' : List ℕ) × (rx_loop
            (between_bus sleep)
            fuel
            b
            flag
            i
            buf
          ≡ done (n, buf', b'))
        × IsValid b'.0.0
        × (used b'.0.0.receive ≡ 0)
        × (sent_so_far b'.0 ≡ sent_so_far b.0)
        × (length buf' ≡ length buf)
        × (n + length (offered b'.1) ≡ i + bytes_to_come b)
        × (take n buf' ++ map u8 (offered b'.1) ≡ take i buf ++ to_come b)
  rx_loop_between zero i b flag buf e v few h r = absurd (omega arith)
  rx_loop_between (suc fuel) i b flag buf e v few h r = elim (Bool-cases (has flag flag_rxfe)) [
    | inl empty ↦
        let none_left : used b.0.0.receive ≡ 0 =
          (has_rxfe v).0 (ap (λ (f : ℕ). has f flag_rxfe) (sym e) ∙ empty) in
        (
          i,
          b,
          buf,
          rx_loop-empty (between_bus sleep) fuel b flag i buf empty,
          v,
          none_left,
          refl,
          refl,
          omega arith,
          rw (contents_of_unused b.0.0.receive none_left) refl,
        )
    | inr more ↦
        let waiting : 0 < used b.0.0.receive =
          (has_rxfe v).1 (ap (λ (f : ℕ). has f flag_rxfe) (sym e) ∙ more) in
        let (x, b₁) = (between_bus sleep).readl b dr in
        let taken = read-IsTaken b v few waiting in
        let (flag', b₂) = (between_bus sleep).readl b₁ fr in
        let (seen, later) = read-IsLater b₁ taken.valid (omega (arith, taken.one_less)) in
        let buf₁ = set buf i (u8 x) in
        let (n, b', buf', ended, valid, none_left, kept, same, count, stored) =
          rx_loop_between fuel (i + 1) b₂ flag' buf₁ seen later.valid
            (omega (arith, taken.one_less, later.same_count))
            (omega (arith, taken.one_less, later.same_count))
            (omega (arith, taken.one_less, later.same_count, length-set buf i (u8 x))) in
        (
          n,
          b',
          buf',
          rx_loop-more (between_bus sleep) fuel b flag i buf more (omega (arith, taken.one_less))
              ∙ ended,
          valid,
          none_left,
          kept ∙ later.nothing_lost ∙ taken.nothing_lost,
          same ∙ length-set buf i (u8 x),
          omega (arith, count, taken.one_less, later.same_count),
          stored
              ∙ ap (λ (l : List ℕ). l ++ to_come b₂)
                  (take-set i (u8 x) buf (omega (arith, taken.one_less)))
              ∙ append_assoc (take i buf) (u8 x ∷ []) (to_come b₂)
              ∙ ap (λ (l : List ℕ). take i buf ++ (u8 x ∷ l)) later.same_bytes
              ∙ ap (λ (l : List ℕ). take i buf ++ l) (sym taken.oldest),
        )
  ]

  -- With the host reading and setting the property data and the interrupt handler running any
  -- number of times before each register access, the receive work of week02 on a valid block, with
  -- the 32 bytes of rx_buf, returns if the bytes that wait and all that the host is yet to set are
  -- at most 31: rx_size bytes of rx_buf, followed by the strings not yet set, are then the bytes
  -- that waited followed by all the strings, in order, the block is valid and its receive buffer
  -- empty, and the bytes that reads of the host took out of the transmit buffer, with those still
  -- in it, are the same as before.
  pub rx_work_between :
      (cmdev : Cmdev (between_bus sleep))
      → IsValid cmdev.base.0.0
      → length cmdev.rx_buf ≡ 32
      → bytes_to_come cmdev.base ≤ 31
      → (cmdev' : Cmdev (between_bus sleep)) × (rx_work (between_bus sleep) 32 cmdev ≡ done cmdev')
        × IsValid cmdev'.base.0.0
        × (used cmdev'.base.0.0.receive ≡ 0)
        × (sent_so_far cmdev'.base.0 ≡ sent_so_far cmdev.base.0)
        × (length cmdev'.rx_buf ≡ 32)
        × (cmdev'.rx_size + length (offered cmdev'.base.1) ≡ bytes_to_come cmdev.base)
        × (take cmdev'.rx_size cmdev'.rx_buf ++ map u8 (offered cmdev'.base.1) ≡ to_come cmdev.base)
  unfolding rx_work
  rx_work_between cmdev v h few =
      let (seen, later) = read-IsLater cmdev.base v few in
      let (flag, b) = (between_bus sleep).readl cmdev.base fr in
      let (n, b', buf', ended, valid, none_left, kept, same, count, stored) =
        rx_loop_between 32 0 b flag cmdev.rx_buf seen later.valid (omega (arith, later.same_count))
          (omega (arith, later.same_count)) (omega (arith, later.same_count)) in
      (
        record cmdev { base = b'; rx_buf = buf'; rx_size = n },
        rw (rx_work, ended) refl,
        valid,
        none_left,
        kept ∙ later.nothing_lost,
        same ∙ h,
        omega (arith, count, later.same_count),
        stored ∙ later.same_bytes,
      )
