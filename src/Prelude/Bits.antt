-- ===== src/Prelude/Bits.antt =====
-- Registers read bit by bit: what `|`, `&`, `^` and `~` of the sources do to each bit.
use Prim.Native.Nat.{
  ℕ, zero, suc, ◌+◌, ◌-◌, ◌*◌, ◌/◌, ◌%◌, ◌^◌, ◌≤◌, ◌<◌, min, max, bit_and, bit_or, bit_xor, digits,
  bit_and-bitwise, bit_or-bitwise, bit_xor-bitwise, bitwise, differ,
}
use mathlib.Core.Path.{◌≡◌, refl, sym, ap, ◌∙◌}
use native.Mathlib.Nat.{le_refl, pow-suc}
use native.Mathlib.Omega.{arith}

-- The bit of weight 2 ^ k.
unfoldable pub bit : ℕ → ℕ → ℕ
bit zero n = n % 2
bit (suc k) n = bit k (n / 2)

-- The operations are recursions on a count of rounds. With enough of them the lowest digits come
-- apart from the rest, whatever `z` makes of the second number once the first has run out.
module _ (z : ℕ → ℕ) (f : ℕ → ℕ → ℕ) (runs_out : (y : ℕ) → z y ≡ z (y / 2) * 2 + f 0 (y % 2)) where
  lowest :
      (bound rounds x y : ℕ)
      → rounds ≤ bound
      → x ≤ rounds
      → digits z f rounds x y ≡ bitwise z f (x / 2) (y / 2) * 2 + f (x % 2) (y % 2)
  lowest bound zero zero y h h' = runs_out y
  lowest bound zero (suc x) y h h' = absurd (omega arith)
  lowest bound (suc rounds) zero y h h' = runs_out y
  lowest zero (suc rounds) (suc x) y h h' = absurd (omega arith)
  lowest (suc bound) (suc rounds) (suc x) y h h' =
      let half : ℕ = suc x / 2 in
      ap (λ (d : ℕ). d * 2 + f (suc x % 2) (y % 2))
        (lowest bound rounds half (y / 2) (omega arith) (omega arith)
          ∙ sym (lowest bound half half (y / 2) (omega arith) (le_refl half)))

  halves : (x y : ℕ) → bitwise z f x y ≡ bitwise z f (x / 2) (y / 2) * 2 + f (x % 2) (y % 2)
  halves x y = lowest x x x y (le_refl x) (le_refl x)

pub bit_or_step : (x y : ℕ) → bit_or x y ≡ bit_or (x / 2) (y / 2) * 2 + max (x % 2) (y % 2)
bit_or_step x y = simp bit_or-bitwise (halves (λ d. d) max (λ d. omega arith) x y)

pub bit_and_step : (x y : ℕ) → bit_and x y ≡ bit_and (x / 2) (y / 2) * 2 + min (x % 2) (y % 2)
bit_and_step x y = simp bit_and-bitwise (halves (λ d. 0) min (λ d. omega arith) x y)

-- The exclusive or of two digits is their distance.
differ_lem : (x y : ℕ) → differ x y ≡ max x y - min x y
differ_lem zero y = omega arith
differ_lem (suc x) zero = omega arith
differ_lem (suc x) (suc y) = omega (arith, differ_lem x y)

pub bit_xor_step :
    (x y : ℕ)
    → bit_xor x y ≡ bit_xor (x / 2) (y / 2) * 2 + (max (x % 2) (y % 2) - min (x % 2) (y % 2))
bit_xor_step x y =
    simp bit_xor-bitwise
      (omega (arith, halves (λ d. d) differ (λ d. omega arith) x y, differ_lem (x % 2) (y % 2)))

half_or : (a b : ℕ) → bit_or a b / 2 ≡ bit_or (a / 2) (b / 2)
half_or a b = omega (arith, bit_or_step a b)

half_and : (a b : ℕ) → bit_and a b / 2 ≡ bit_and (a / 2) (b / 2)
half_and a b = omega (arith, bit_and_step a b)

half_xor : (a b : ℕ) → bit_xor a b / 2 ≡ bit_xor (a / 2) (b / 2)
half_xor a b = omega (arith, bit_xor_step a b)

-- Each bit of a combination is the combination of the bits.
pub bit-or : (k a b : ℕ) → bit k (bit_or a b) ≡ max (bit k a) (bit k b)
unfolding bit
bit-or zero a b = omega (arith, bit_or_step a b)
bit-or (suc k) a b = rw (half_or a b) (bit-or k (a / 2) (b / 2))

pub bit-and : (k a b : ℕ) → bit k (bit_and a b) ≡ min (bit k a) (bit k b)
unfolding bit
bit-and zero a b = omega (arith, bit_and_step a b)
bit-and (suc k) a b = rw (half_and a b) (bit-and k (a / 2) (b / 2))

pub bit-xor : (k a b : ℕ) → bit k (bit_xor a b) ≡ max (bit k a) (bit k b) - min (bit k a) (bit k b)
unfolding bit
bit-xor zero a b = omega (arith, bit_xor_step a b)
bit-xor (suc k) a b = rw (half_xor a b) (bit-xor k (a / 2) (b / 2))

pub bit-le-one : (k n : ℕ) → bit k n ≤ 1
unfolding bit
bit-le-one zero n = omega arith
bit-le-one (suc k) n = bit-le-one k (n / 2)

-- The width of a register: no operation makes more bits than its operands have.
pub bit_or-lt : (k a b : ℕ) → a < 2 ^ k → b < 2 ^ k → bit_or a b < 2 ^ k
bit_or-lt zero a b p q = rw (a_zero, b_zero) (omega arith)
  where
    a_zero : a ≡ 0
    a_zero = omega arith

    b_zero : b ≡ 0
    b_zero = omega arith
bit_or-lt (suc k) a b p q = omega (
  arith,
  pow-suc 2 k,
  bit_or_step a b,
  bit_or-lt k (a / 2) (b / 2) (omega (arith, pow-suc 2 k)) (omega (arith, pow-suc 2 k)),
)

pub bit_xor-lt : (k a b : ℕ) → a < 2 ^ k → b < 2 ^ k → bit_xor a b < 2 ^ k
bit_xor-lt zero a b p q = rw (a_zero, b_zero) (omega arith)
  where
    a_zero : a ≡ 0
    a_zero = omega arith

    b_zero : b ≡ 0
    b_zero = omega arith
bit_xor-lt (suc k) a b p q = omega (
  arith,
  pow-suc 2 k,
  bit_xor_step a b,
  bit_xor-lt k (a / 2) (b / 2) (omega (arith, pow-suc 2 k)) (omega (arith, pow-suc 2 k)),
)

bit_and-le_fuel : (n a b : ℕ) → a ≤ n → bit_and a b ≤ a
bit_and-le_fuel n zero b h = omega (arith, bit_and-bitwise 0 b)
bit_and-le_fuel zero (suc a) b h = absurd (omega arith)
bit_and-le_fuel (suc n) (suc a) b h =
    omega (arith, bit_and_step (suc a) b, bit_and-le_fuel n (suc a / 2) (b / 2) (omega arith))

pub bit_and-le : (a b : ℕ) → bit_and a b ≤ a
bit_and-le a b = bit_and-le_fuel a a b (le_refl a)

-- A mask of one bit picks that bit.
masked : (rounds x y : ℕ) → x ≤ rounds → bit_and x y ≤ y
masked rounds zero y h = omega (arith, bit_and-le 0 y)
masked zero (suc x) y h = absurd (omega arith)
masked (suc rounds) (suc x) y h =
    let half : ℕ = suc x / 2 in
    omega (arith, bit_and_step (suc x) y, masked rounds half (y / 2) (omega arith))

pub bit_and_one : (a : ℕ) → bit_and a 1 ≡ bit 0 a
unfolding bit
bit_and_one a = omega (arith, bit_and_step a 1, masked (a / 2) (a / 2) 0 (le_refl _))

pub bit_and_two : (a : ℕ) → bit_and a 2 ≡ bit 1 a * 2
unfolding bit
bit_and_two a = omega (arith, bit_and_step a 2, bit_and_one (a / 2))

pub bit_and_four : (a : ℕ) → bit_and a 4 ≡ bit 2 a * 4
unfolding bit
bit_and_four a = omega (arith, bit_and_step a 4, bit_and_two (a / 2))

pub bit_and_eight : (a : ℕ) → bit_and a 8 ≡ bit 3 a * 8
unfolding bit
bit_and_eight a = omega (arith, bit_and_step a 8, bit_and_four (a / 2))

-- What setting and clearing one of the four low bits does to each of them.
abbrev pub LowBits : ℕ → ℕ → ℕ → ℕ → ℕ → Type 0
LowBits n a b c d = (bit 0 n ≡ a) × (bit 1 n ≡ b) × (bit 2 n ≡ c) × (bit 3 n ≡ d)

pub raise_one : (n : ℕ) → LowBits (bit_or n 1) 1 (bit 1 n) (bit 2 n) (bit 3 n)
unfolding bit
raise_one n = omega (arith, bit-or 0 n 1, bit-or 1 n 1, bit-or 2 n 1, bit-or 3 n 1)

pub clear_one : (n : ℕ) → LowBits (bit_and n 4294967294) 0 (bit 1 n) (bit 2 n) (bit 3 n)
unfolding bit
clear_one n = omega (
  arith,
  bit-and 0 n 4294967294,
  bit-and 1 n 4294967294,
  bit-and 2 n 4294967294,
  bit-and 3 n 4294967294,
)

pub raise_two : (n : ℕ) → LowBits (bit_or n 2) (bit 0 n) 1 (bit 2 n) (bit 3 n)
unfolding bit
raise_two n = omega (arith, bit-or 0 n 2, bit-or 1 n 2, bit-or 2 n 2, bit-or 3 n 2)

pub clear_two : (n : ℕ) → LowBits (bit_and n 4294967293) (bit 0 n) 0 (bit 2 n) (bit 3 n)
unfolding bit
clear_two n = omega (
  arith,
  bit-and 0 n 4294967293,
  bit-and 1 n 4294967293,
  bit-and 2 n 4294967293,
  bit-and 3 n 4294967293,
)

pub raise_four : (n : ℕ) → LowBits (bit_or n 4) (bit 0 n) (bit 1 n) 1 (bit 3 n)
unfolding bit
raise_four n = omega (arith, bit-or 0 n 4, bit-or 1 n 4, bit-or 2 n 4, bit-or 3 n 4)

pub clear_four : (n : ℕ) → LowBits (bit_and n 4294967291) (bit 0 n) (bit 1 n) 0 (bit 3 n)
unfolding bit
clear_four n = omega (
  arith,
  bit-and 0 n 4294967291,
  bit-and 1 n 4294967291,
  bit-and 2 n 4294967291,
  bit-and 3 n 4294967291,
)

pub raise_eight : (n : ℕ) → LowBits (bit_or n 8) (bit 0 n) (bit 1 n) (bit 2 n) 1
unfolding bit
raise_eight n = omega (arith, bit-or 0 n 8, bit-or 1 n 8, bit-or 2 n 8, bit-or 3 n 8)

pub clear_eight : (n : ℕ) → LowBits (bit_and n 4294967287) (bit 0 n) (bit 1 n) (bit 2 n) 0
unfolding bit
clear_eight n = omega (
  arith,
  bit-and 0 n 4294967287,
  bit-and 1 n 4294967287,
  bit-and 2 n 4294967287,
  bit-and 3 n 4294967287,
)

-- A number below the low end of another joins it as in a sum.
bit_or-zero_fuel : (n a : ℕ) → a ≤ n → bit_or a 0 ≡ a
bit_or-zero_fuel n zero h = refl
bit_or-zero_fuel zero (suc a) h = absurd (omega arith)
bit_or-zero_fuel (suc n) (suc a) h =
    omega (arith, bit_or_step (suc a) 0, bit_or-zero_fuel n (suc a / 2) (omega arith))

pub bit_or-disjoint : (k q r : ℕ) → r < 2 ^ k → bit_or (q * 2 ^ k) r ≡ q * 2 ^ k + r
bit_or-disjoint zero q r h =
    rw none_low (bit_or-zero_fuel (q * 1) (q * 1) (le_refl _) ∙ omega arith)
  where
    none_low : r ≡ 0
    none_low = omega arith
bit_or-disjoint (suc k) q r h = omega (
  arith,
  doubled,
  ap (λ (n : ℕ). bit_or n (r / 2)) halved,
  bit_or_step (q * 2 ^ suc k) r,
  bit_or-disjoint k q (r / 2) (omega (arith, pow-suc 2 k)),
)
  where
    doubled : q * 2 ^ suc k ≡ 2 * (q * 2 ^ k)
    doubled = omega (arith, ap (λ (t : ℕ). q * t) (pow-suc 2 k))

    halved : q * 2 ^ suc k / 2 ≡ q * 2 ^ k
    halved = omega (arith, doubled)
