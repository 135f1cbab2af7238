-- ===== src/Prelude/Words.antt =====
-- Registers of 8 to 64 bits, with the masks of the sources.
use Prim.Native.Nat.{ℕ, ◌-◌, ◌%◌, ◌^◌, bit_and, bit_or}
use mathlib.Core.Bool.{Bool, not}
use device_driver_on_so_c.Prelude.Tests.{◌==◌}

-- The casts to the fixed widths.
abbrev pub u8 : ℕ → ℕ
u8 n = n % 2 ^ 8

abbrev pub u16 : ℕ → ℕ
u16 n = n % 2 ^ 16

abbrev pub u32 : ℕ → ℕ
u32 n = n % 2 ^ 32

abbrev pub u64 : ℕ → ℕ
u64 n = n % 2 ^ 64

-- `~m` of a mask `m` that fits 32 bits.
abbrev pub not32 : ℕ → ℕ
not32 m = 2 ^ 32 - 1 - m

-- `r |= m`, `r &= ~m`, and the truth of `r & m` in a condition.
abbrev pub raise : ℕ → ℕ → ℕ
raise r m = bit_or r m

abbrev pub clear : ℕ → ℕ → ℕ
clear r m = bit_and r (not32 m)

abbrev pub has : ℕ → ℕ → Bool
has r m = not (bit_and r m == 0)
