-- ===== src/Prelude/Masks.antt =====
-- Masks that are applied one after the other: a mask clears the same bits before or after another
-- change of a register that leaves those bits alone.
use Prim.Native.Nat.{ℕ, zero, suc, ◌+◌, ◌/◌, ◌≤◌, bit_and, bit_or, bit_xor}
use mathlib.Core.Path.{◌≡◌, refl, ap}
use native.Mathlib.Omega.{arith}
use device_driver_on_so_c.Prelude.Bits.{bit, bit-or, bit-and, bit-xor, bit-le-one, bit_and-le}

same_bits_fuel : (n a b : ℕ) → a ≤ n → b ≤ n → ((k : ℕ) → bit k a ≡ bit k b) → a ≡ b
unfolding bit
same_bits_fuel zero a b h h' same = omega arith
same_bits_fuel (suc n) a b h h' same = omega (
  arith,
  same 0,
  same_bits_fuel n (a / 2) (b / 2) (omega arith) (omega arith) (λ k. same (suc k)),
)

-- Two numbers are equal when each of their bits is.
pub same_bits : (a b : ℕ) → ((k : ℕ) → bit k a ≡ bit k b) → a ≡ b
same_bits a b same = same_bits_fuel (a + b) a b (omega arith) (omega arith) same

bit-zero : (k : ℕ) → bit k 0 ≡ 0
unfolding bit
bit-zero zero = refl
bit-zero (suc k) = bit-zero k

-- The two masks of `&` may be exchanged.
pub bit_and_swap : (r m n : ℕ) → bit_and (bit_and r m) n ≡ bit_and (bit_and r n) m
bit_and_swap r m n = same_bits _ _ (λ k.
    omega
      (arith, bit-and k (bit_and r m) n, bit-and k r m, bit-and k (bit_and r n) m, bit-and k r n))

-- Bits that the mask keeps are set before or after it.
pub bit_and-bit_or_kept :
    (r m n : ℕ) → bit_and m n ≡ m → bit_and (bit_or r m) n ≡ bit_or (bit_and r n) m
bit_and-bit_or_kept r m n kept = same_bits _ _ (λ k. omega (
  arith,
  bit-and k (bit_or r m) n,
  bit-or k r m,
  bit-or k (bit_and r n) m,
  bit-and k r n,
  bit-and k m n,
  ap (bit k) kept,
))

-- Bits that the mask drops may as well not be set before it.
pub bit_and-bit_or_dropped : (r m n : ℕ) → bit_and m n ≡ 0 → bit_and (bit_or r m) n ≡ bit_and r n
bit_and-bit_or_dropped r m n dropped = same_bits _ _ (λ k. omega (
  arith,
  bit-and k (bit_or r m) n,
  bit-or k r m,
  bit-and k r n,
  bit-and k m n,
  ap (bit k) dropped,
  bit-zero k,
))

-- Bits that the mask keeps are flipped before or after it.
pub bit_and-bit_xor_kept :
    (r m n : ℕ) → bit_and m n ≡ m → bit_and (bit_xor r m) n ≡ bit_xor (bit_and r n) m
bit_and-bit_xor_kept r m n kept = same_bits _ _ (λ k. omega (
  arith,
  bit-and k (bit_xor r m) n,
  bit-xor k r m,
  bit-xor k (bit_and r n) m,
  bit-and k r n,
  bit-and k m n,
  ap (bit k) kept,
  bit-le-one k r,
  bit-le-one k m,
  bit-le-one k n,
))

-- A mask is idle before a narrower one.
pub bit_and_absorb : (r m n : ℕ) → bit_and m n ≡ m → bit_and (bit_and r n) m ≡ bit_and r m
bit_and_absorb r m n kept = same_bits _ _ (λ k. omega (
  arith,
  bit-and k (bit_and r n) m,
  bit-and k r n,
  bit-and k r m,
  bit-and k m n,
  ap (bit k) kept,
))

bit_and_comm : (r m : ℕ) → bit_and r m ≡ bit_and m r
bit_and_comm r m = same_bits _ _ (λ k. omega (arith, bit-and k r m, bit-and k m r))

-- What a mask leaves is no more than the mask.
pub bit_and-le_mask : (r m : ℕ) → bit_and r m ≤ m
bit_and-le_mask r m = omega (arith, bit_and-le m r, bit_and_comm r m)
