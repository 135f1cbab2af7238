-- ===== src/Qemu/Scale.antt =====
-- The scale on the SPI bus, week05/qemu-ssi.c: each call of `transfer` clocks a byte in and one
-- out. `scale` and `offset` are 16-bit registers.
use device_driver_on_so_c.Prelude.{
  ℕ, ◌+◌, ◌-◌, ◌/◌, ◌^◌, not, Option, none, some, ◌==◌, if◌then◌else◌, u8, u16,
}

abbrev pub get_scale_code : ℕ
get_scale_code = 1

abbrev pub set_zero_code : ℕ
set_zero_code = 2

pub record SsiComento : Type 0 where
  pub scale : ℕ
  pub offset : ℕ
  pub cycle : ℕ

-- The first half of `ssi_comento_transfer`: what the byte from the bus does.
unfoldable pub advance : SsiComento → ℕ → SsiComento
advance s value =
    if not (value == 0)
    then (let s' = if value == set_zero_code then record s { offset = s.scale } else s in
        record s' { cycle = 0 })
    else record s { cycle = s.cycle + 1 }

-- The second half: the byte that goes back. The difference of the registers may be negative; its
-- bits 0 to 15 are those of `2 ^ 16 + scale - offset`.
unfoldable pub answer : SsiComento → ℕ
answer s =
    let difference = 2 ^ 16 + s.scale - s.offset in
    if s.cycle == 1 then u8 (difference / 2 ^ 8) else if s.cycle == 2 then u8 difference else 0

-- `ssi_comento_transfer`
unfoldable pub transfer : SsiComento → ℕ → ℕ × SsiComento
unfolding advance answer
transfer s value = let s' = advance s value in (answer s', s')

-- `ssi_comento_get_scale`, before `sprintf` prints the number.
pub get_scale : SsiComento → ℕ
get_scale s = s.scale

-- `ssi_comento_set_scale` on what `sscanf` finds for "%hd", if anything.
pub set_scale : SsiComento → Option ℕ → SsiComento
set_scale s none = s
set_scale s (some value) = record s { scale = u16 value }

-- `ssi_comento_init` on the zeroed instance that QEMU hands it: it only makes the property.
abbrev pub init : SsiComento
init = record { scale = 0; offset = 0; cycle = 0 }
