-- ===== src/Linux/Dma/Memcpy/Copy.antt =====
-- What the copy of 256 bytes in the probe of week04/mmio-memcpy.c shows.
use mathlib.Core.Bool.{false≢true}
use device_driver_on_so_c.Prelude.{
  ℕ, zero, suc, ◌≡◌, ◌-◌, refl, ap, arith, Bool, true, false, some, List, [], ◌∷◌, ◌++◌, take,
  replicate, ◌==◌,
}
use device_driver_on_so_c.Linux.Kernel.{done}
use device_driver_on_so_c.Linux.Probe.{put}
use device_driver_on_so_c.Linux.Dma.Memcpy.{hello, text, destination, memcpy}

text-zeros : (n k j : ℕ) → text (take n (replicate k 0) ++ replicate j 0) ≡ []
unfolding text
text-zeros zero k zero = refl
text-zeros zero k (suc j) = refl
text-zeros (suc n) zero zero = refl
text-zeros (suc n) zero (suc j) = refl
text-zeros (suc n) (suc k) j = refl

-- Whether no character is the end of a text.
all_shown : List ℕ → Bool
all_shown [] = true
all_shown (zero ∷ xs) = false
all_shown (suc x ∷ xs) = all_shown xs

shown-text :
    (xs : List ℕ) (n k j : ℕ)
    → all_shown xs ≡ true
    → text (take n (xs ++ replicate k 0) ++ replicate j 0) ≡ take n xs
unfolding text all_shown
shown-text [] zero k j all = text-zeros zero k j
shown-text [] (suc n) k j all = text-zeros (suc n) k j
shown-text (x ∷ xs) zero k j all = text-zeros zero k j
shown-text (zero ∷ xs) (suc n) k j all = absurd (false≢true all)
shown-text (suc x ∷ xs) (suc n) k j all =
    let some_character : (suc x == 0) ≡ false = ground arith in
    rw some_character (ap (λ (l : List ℕ). suc x ∷ l) (shown-text xs n k j all))

copied-text : (n : ℕ) → text (destination n) ≡ take n hello
unfolding all_shown
copied-text n = shown-text hello n 241 (256 - n) refl

-- When the channel, the memory and the job of the copy are had, the texts shown of `dst` are the
-- empty one and as much of "Hello world~!!!" as the engine has copied at the second look and at the
-- last, for any numbers of bytes copied.
pub memcpy_shows :
    (name before after : ℕ) (held : ℕ → Bool)
    → memcpy (some name) true true before after held
      ≡ done (put held name true, [] ∷ take before hello ∷ take after hello ∷ [])
unfolding memcpy
memcpy_shows name before after held = rw (copied-text before, copied-text after) refl
