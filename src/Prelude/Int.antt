-- ===== src/Prelude/Int.antt =====
-- Signed values of 16 bits, and the integers that they stand for.
use Prim.Native.Nat.{ℕ, ◌-◌, ◌^◌}
use device_driver_on_so_c.Prelude.Tests.{ltb, leb, if◌then◌else◌}

-- `negsuc n` is -(n + 1).
pub data ℤ : Type 0 where
  pos : ℕ → ℤ
  negsuc : ℕ → ℤ

-- a - b, as an integer.
abbrev pub sub_ℕ : ℕ → ℕ → ℤ
sub_ℕ a b = if leb b a then pos (a - b) else negsuc (b - a - 1)

-- What a `short` with these 16 bits stands for.
abbrev pub short : ℕ → ℤ
short w = if ltb w (2 ^ 15) then pos w else negsuc (2 ^ 16 - w - 1)
