-- ===== src/Prelude/Texts.antt =====
-- Strings of C: the bytes before the first 0.
use Prim.Native.Nat.{ℕ}
use mathlib.Core.Path.{◌≡◌, refl, subst}
use mathlib.Core.Logic.{◌≢◌}
use mathlib.Core.Bool.{Bool, true, false, ◌&&◌}
use mathlib.Core.List.{List, [], ◌∷◌}
use native.Mathlib.Omega.{arith}
use device_driver_on_so_c.Prelude.Tests.{◌==◌, if◌then◌else◌}

unfoldable pub c_string : List ℕ → List ℕ
c_string [] = []
c_string (x ∷ xs) = if x == 0 then [] else x ∷ c_string xs

unfoldable pub same_bytes : List ℕ → List ℕ → Bool
same_bytes [] [] = true
same_bytes [] (y ∷ ys) = false
same_bytes (x ∷ xs) [] = false
same_bytes (x ∷ xs) (y ∷ ys) = (x == y) && same_bytes xs ys

pub same_bytes-true : (xs ys : List ℕ) → same_bytes xs ys ≡ true → xs ≡ ys
unfolding same_bytes
same_bytes-true [] [] h = refl
same_bytes-true [] (y ∷ ys) h = ground arith
same_bytes-true (x ∷ xs) [] h = ground arith
same_bytes-true (x ∷ xs) (y ∷ ys) h =
    let heads : x ≡ y = ground arith in rw (heads, same_bytes-true xs ys (ground arith)) refl

pub same_bytes_refl : (xs : List ℕ) → same_bytes xs xs ≡ true
unfolding same_bytes
same_bytes_refl [] = refl
same_bytes_refl (x ∷ xs) = ground (arith, same_bytes_refl xs)

pub same_bytes-false : (xs ys : List ℕ) → same_bytes xs ys ≡ false → xs ≢ ys
same_bytes-false xs ys h e =
    absurd
      (ground (arith, h, subst (λ (l : List ℕ). same_bytes xs l ≡ true) e (same_bytes_refl xs)))
