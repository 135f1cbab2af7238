-- ===== src/Qemu/Pipe.antt =====
-- What the MMIO block of week03/mmio.c promises about data: two bounded queues, one from the
-- guest to the host and one back. Registers, lines and interrupts are left out.
use device_driver_on_so_c.Prelude.{
  c_string, ℕ, suc, ◌+◌, ◌≤◌, ◌<◌, ◌≡◌, refl, arith, append-nil, append_assoc, length-append, ◌-◌,
  List, [], ◌∷◌, ◌++◌, ◌==◌, if◌then◌else◌, length, map, take, take-nil, take_all, ap, u8,
}
use device_driver_on_so_c.Registers.{dr}

-- What the two sides do: accesses of the guest to the block, and accesses of the host to the
-- property `data`.
pub data Op : Type 0 where
  guest_read : ℕ → Op
  guest_write : ℕ → ℕ → Op
  host_get : Op
  host_set : List ℕ → Op

-- What each gives back of the data: nothing, a byte of DR, or the string of the property.
pub data Reply : Type 0 where
  silent : Reply
  byte : ℕ → Reply
  text : List ℕ → Reply

pub record Pipe : Type 0 where
  pub outgoing : List ℕ
  pub incoming : List ℕ

abbrev pub capacity : ℕ
capacity = 31

unfoldable pub take_incoming : Pipe → List ℕ → Reply × Pipe
take_incoming p [] = (byte 0, p)
take_incoming p (x ∷ xs) = (byte x, record p { incoming = xs })

-- A queue of bytes takes what fits and drops the rest.
unfoldable pub push : List ℕ → List ℕ → List ℕ
push q xs = q ++ map u8 (take (capacity - length q) xs)

pub push-nil : (q : List ℕ) → push q [] ≡ q
unfolding push
push-nil q = rw (take-nil {0} (capacity - length q), append-nil)

pub push-fits : (xs : List ℕ) → length xs ≤ capacity → push [] xs ≡ map u8 xs
unfolding push
push-fits xs h = ap (map u8) (take_all capacity xs h)

pub push-full : (q xs : List ℕ) → capacity ≤ length q → push q xs ≡ q
unfolding push
push-full q xs h = rw (no_room, append-nil)
  where
    no_room : capacity - length q ≡ 0
    no_room = omega arith

pub push-cons :
    (q : List ℕ) (x : ℕ) (xs : List ℕ)
    → length q < capacity
    → push q (x ∷ xs) ≡ push (q ++ (u8 x ∷ [])) xs
unfolding push
push-cons q x xs h = rw (append_assoc, length-append, ← room) refl
  where
    room : suc (capacity - (length q + 1)) ≡ capacity - length q
    room = omega arith

unfoldable pub step : Pipe → Op → Reply × Pipe
unfolding take_incoming push
step p (guest_read offset) = if offset == dr then take_incoming p p.incoming else (silent, p)
step p (guest_write offset value) =
    (silent, if offset == dr then record p { outgoing = push p.outgoing (value ∷ []) } else p)
step p host_get = (text (c_string p.outgoing), record p { outgoing = [] })
step p (host_set xs) = (silent, record p { incoming = push p.incoming xs })

unfoldable pub run : Pipe → List Op → List Reply
run p [] = []
run p (op ∷ ops) = let (r, p') = step p op in r ∷ run p' ops
