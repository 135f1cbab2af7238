-- ===== src/Qemu/Fifo/Views.antt =====
-- What two buffers of week03/mmio.c have in common when they hold the same bytes: where the bytes
-- stand, and what is left in the rest of the storage, is forgotten.
use mathlib.Core.Equiv.{Iso}
use mathlib.Core.HLevel.{Σ_prop_path}
use mathlib.Core.Quot
use mathlib.Core.Quot.{Quot, Quot-set}
use native.Mathlib.Bridge.{le_prop}
use device_driver_on_so_c.Prelude.{
  ℕ, ◌+◌, ◌-◌, ◌%◌, ◌≤◌, ◌<◌, ◌≡◌, refl, sym, ap, ◌∙◌, arith, List, [], ◌∷◌, ◌++◌, get_or,
  replicate, length, length-append, length-replicate, append_assoc,
}
use device_driver_on_so_c.Qemu.Fifo.{Fifo, fifo_size}
use device_driver_on_so_c.Qemu.Fifo.Contents.{
  IsValid, items, used, used-le, contents, length-contents,
}

-- A buffer whose indices stay within its storage
abbrev pub Ring : Type 0
Ring = (f : Fifo) × IsValid f

abbrev pub SameBytes : Ring → Ring → Type 0
SameBytes f g = contents f.0 ≡ contents g.0

abbrev pub View : Type 0
View = Quot SameBytes

-- A queue of at most 31 bytes
abbrev pub Queue : Type 0
Queue = (xs : List ℕ) × (length xs ≤ 31)

pub Queue-set : IsSet Queue
Queue-set = hlevel (le_prop)

pub Queue-ext : (p q : Queue) → p.0 ≡ q.0 → p ≡ q
Queue-ext p q h = Σ_prop_path (λ xs. le_prop) h

pub contents-le : (f : Fifo) → length (contents f) ≤ 31
contents-le f = omega (arith, length-contents f, used-le f)

abbrev pub to_queue : View → Queue
to_queue = Quot.lift Queue-set (λ f. (contents f.0, contents-le f.0)) (λ f g h. Queue-ext _ _ h)

-- The bytes at the start of the storage
abbrev pub laid_out : List ℕ → Fifo
laid_out xs = record { front = 0; rear = length xs; buf = xs ++ replicate (32 - length xs) 0 }

get_or-append : (ys : List ℕ) (x : ℕ) (zs : List ℕ) → get_or (ys ++ (x ∷ zs)) (length ys) 0 ≡ x
get_or-append [] x zs = refl
get_or-append (y ∷ ys) x zs = get_or-append ys x zs

items-middle :
    (ys xs zs : List ℕ)
    → length ys + length xs < 32
    → items (ys ++ (xs ++ zs)) (length ys) (length xs) ≡ xs
items-middle ys [] zs h = refl
items-middle ys (x ∷ xs) zs h =
    ap (λ (b : ℕ). b ∷ items (ys ++ (x ∷ (xs ++ zs))) ((length ys + 1) % fifo_size) (length xs))
      (get_or-append ys x (xs ++ zs))
    ∙ ap (λ (l : List ℕ). x ∷ l)
        (ap (λ (l : List ℕ). items l ((length ys + 1) % fifo_size) (length xs))
            (sym (append_assoc ys (x ∷ []) (xs ++ zs)))
          ∙ ap (λ (i : ℕ). items ((ys ++ (x ∷ [])) ++ (xs ++ zs)) i (length xs)) next
          ∙ items-middle (ys ++ (x ∷ [])) xs zs (omega (arith, length-append ys (x ∷ []))))
  where
    next : (length ys + 1) % fifo_size ≡ length (ys ++ (x ∷ []))
    next = omega (arith, length-append ys (x ∷ []))

pub laid_out-IsValid : (xs : List ℕ) → length xs ≤ 31 → IsValid (laid_out xs)
laid_out-IsValid xs h = omega (
  arith,
  length-append xs (replicate (32 - length xs) 0),
  length-replicate {A = ℕ} (32 - length xs) 0,
)

pub contents-laid_out : (xs : List ℕ) → length xs ≤ 31 → contents (laid_out xs) ≡ xs
contents-laid_out xs h =
    ap (items (xs ++ replicate (32 - length xs) 0) 0) all
    ∙ items-middle [] xs (replicate (32 - length xs) 0) (omega arith)
  where
    all : used (laid_out xs) ≡ length xs
    all = omega arith

abbrev pub from_queue : Queue → View
from_queue q = Quot.mk (laid_out q.0, laid_out-IsValid q.0 q.1)

unfoldable pub view_iso : Iso View Queue
view_iso = record {
  fun = to_queue;
  inv = from_queue;
  rinv = λ q. Queue-ext _ _ (contents-laid_out q.0 q.1);
  linv =
      Quot.ind (λ v. Quot-set _ _)
        (λ f. Quot.sound (contents-laid_out (contents f.0) (contents-le f.0)));
}
