-- ===== src/Qemu/Fifo/Contents.antt =====
-- The bytes that a `struct fifo` holds, oldest first: a queue of at most 31 bytes.
use device_driver_on_so_c.Prelude.{
  ℕ, zero, suc, ◌+◌, ◌-◌, ◌%◌, ◌≤◌, ◌<◌, ◌≡◌, refl, ap, ◌∙◌, arith, List, [], ◌∷◌, ◌++◌, ◌==◌,
  get_or, set, length, length-set, get_or-set_self, get_or-set_ne, u8,
}
use device_driver_on_so_c.Qemu.Fifo.{
  Fifo, fifo_size, empty_fifo, enqueue, dequeue, is_full, is_empty,
}

pub record IsValid (f : Fifo) : Type 0 where
  pub front_in : f.front < fifo_size
  pub rear_in : f.rear < fifo_size
  pub storage : length f.buf ≡ fifo_size

-- `n` bytes from index `h` on, round the end of the storage.
abbrev pub items : List ℕ → ℕ → ℕ → List ℕ
items buf h zero = []
items buf h (suc n) = get_or buf h 0 ∷ items buf ((h + 1) % fifo_size) n

abbrev pub used : Fifo → ℕ
used f = (f.rear + fifo_size - f.front) % fifo_size

abbrev pub contents : Fifo → List ℕ
contents f = items f.buf f.front (used f)

length-items : (buf : List ℕ) (h n : ℕ) → length (items buf h n) ≡ n
length-items buf h zero = refl
length-items buf h (suc n) = ap suc (length-items buf ((h + 1) % fifo_size) n)

pub length-contents : (f : Fifo) → length (contents f) ≡ used f
length-contents f = length-items f.buf f.front (used f)

-- A byte more at the far end.
items-suc :
    (buf : List ℕ) (h n : ℕ)
    → h < fifo_size
    → items buf h (suc n) ≡ items buf h n ++ (get_or buf ((h + n) % fifo_size) 0 ∷ [])
items-suc buf h zero p = ap (λ (i : ℕ). get_or buf i 0 ∷ []) (omega arith)
items-suc buf h (suc n) p =
    ap (λ (l : List ℕ). get_or buf h 0 ∷ l)
      (items-suc buf ((h + 1) % fifo_size) n (omega arith)
        ∙ ap (λ (i : ℕ). items buf ((h + 1) % fifo_size) n ++ (get_or buf i 0 ∷ [])) (omega arith))

-- A write outside the bytes in use leaves them alone.
items-set :
    (buf : List ℕ) (x i h n : ℕ)
    → h < fifo_size
    → i < fifo_size
    → n ≤ (i + fifo_size - h) % fifo_size
    → items (set buf i x) h n ≡ items buf h n
items-set buf x i h zero p q r = refl
items-set buf x i h (suc n) p q r = rw (
  get_or-set_ne buf i h x 0 (omega arith),
  items-set buf x i ((h + 1) % fifo_size) n (omega arith) q (omega arith),
)

-- No index leaves the storage.
pub in_bounds : {f : Fifo} → IsValid f → (f.rear < length f.buf) × (f.front < length f.buf)
in_bounds v = omega arith

pub is_empty-used : {f : Fifo} → IsValid f → is_empty f ≡ (used f == 0)
unfolding is_empty
is_empty-used v = ground arith

pub is_full-used : {f : Fifo} → IsValid f → is_full f ≡ (used f == 31)
unfolding is_full
is_full-used v = ground arith

pub enqueue-IsValid : {f : Fifo} (x : ℕ) → IsValid f → IsValid (enqueue f x)
unfolding enqueue
enqueue-IsValid {f} x v = ground (arith, length-set f.buf f.rear (u8 x))

pub dequeue-IsValid : {f : Fifo} → IsValid f → IsValid (dequeue f).1
unfolding dequeue
dequeue-IsValid v = ground arith

pub used-enqueue : {f : Fifo} (x : ℕ) → IsValid f → used f < 31 → used (enqueue f x) ≡ used f + 1
unfolding enqueue
used-enqueue x v h = omega arith

pub used-dequeue : {f : Fifo} → IsValid f → 0 < used f → used f ≡ suc (used (dequeue f).1)
unfolding dequeue
used-dequeue v h = omega arith

pub used-le : (f : Fifo) → used f ≤ 31
used-le f = omega arith

pub contents_of_unused : (f : Fifo) → used f ≡ 0 → contents f ≡ []
contents_of_unused f h = ap (items f.buf f.front) h

-- A byte joins at the end of a buffer with room.
pub contents-enqueue :
    {f : Fifo} (x : ℕ)
    → IsValid f
    → used f < 31
    → contents (enqueue f x) ≡ contents f ++ (u8 x ∷ [])
unfolding enqueue
contents-enqueue {f} x v h =
    ap (items buf' f.front) grown
    ∙ items-suc buf' f.front (used f) v.front_in
    ∙ rw (
      items-set f.buf (u8 x) f.rear f.front (used f) v.front_in v.rear_in (omega arith),
      last,
      get_or-set_self f.buf f.rear (u8 x) 0 (omega (arith, v.storage)),
    )
  where
    buf' : List ℕ
    buf' = set f.buf f.rear (u8 x)

    grown : used (enqueue f x) ≡ suc (used f)
    grown = omega arith

    last : (f.front + used f) % fifo_size ≡ f.rear
    last = omega arith

-- The oldest byte leaves a buffer that is not empty.
pub contents-dequeue :
    {f : Fifo} → IsValid f → 0 < used f → contents f ≡ (dequeue f).0 ∷ contents (dequeue f).1
unfolding dequeue
contents-dequeue {f} v h = ap (items f.buf f.front) (used-dequeue v h)

pub empty_fifo-IsValid : IsValid empty_fifo
empty_fifo-IsValid = omega arith
