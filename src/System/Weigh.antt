-- ===== src/System/Weigh.antt =====
-- The SPI driver of week05/spi.c over the scale of week05/qemu-ssi.c.
use device_driver_on_so_c.Prelude.{
  List, ◌≢◌, Bool-cases, c_string, same_bytes, same_bytes-true, same_bytes-false, same_bytes_refl,
  ℕ, ◌+◌, ◌-◌, ◌/◌, ◌≤◌, ◌<◌, ◌^◌, ◌≡◌, ◌⊎◌, inl, inr, refl, ap, ◌∙◌, arith, false, ◌==◌,
  bit_or-disjoint, u8, u16, if◌then◌else◌,
}
use device_driver_on_so_c.Prelude.Int.{pos, sub_ℕ, short}
use device_driver_on_so_c.Qemu.Scale.{SsiComento, transfer}
use device_driver_on_so_c.Linux.Spi.{
  Synced, synced, Shown, Stored, Csdev, get_scale_code, set_zero_code, shown_value, show_scale,
  zero_text, store_zero,
}

-- The two registers of the scale hold 16 bits.
pub record IsValid (s : SsiComento) : Type 0 where
  pub scale_width : s.scale < 2 ^ 16
  pub offset_width : s.offset < 2 ^ 16

-- What a message does when the bus works: the code goes out, then two zero bytes clock the answer
-- in.
unfoldable pub message : SsiComento → ℕ → Synced SsiComento
message s code =
    let (x₀, s₁) = transfer s code in
    let (high, s₂) = transfer s₁ 0 in let (low, s₃) = transfer s₂ 0 in synced high low s₃

-- The offset after a command: the tare takes the weight for zero.
abbrev pub tared : SsiComento → ℕ → ℕ
tared s code = if code == set_zero_code then s.scale else s.offset

-- Whatever the scale was doing before, a message with a command brings the weight above the
-- offset, in 16 bits, high byte first.
pub message_lem :
    (s : SsiComento) (code : ℕ)
    → IsValid s
    → code ≡ get_scale_code ⊎ code ≡ set_zero_code
    → let w = u16 (2 ^ 16 + s.scale - tared s code) in
      message s code ≡ synced (w / 2 ^ 8) (u8 w) (record s { offset = tared s code; cycle = 2 })
unfolding message transfer
message_lem s code v h = ground arith

shown_value_lem : (w : ℕ) → w < 2 ^ 16 → shown_value (w / 2 ^ 8, u8 w) ≡ short w
unfolding shown_value
shown_value_lem w h = ap short (omega (arith, bit_or-disjoint 8 (w / 2 ^ 8) (u8 w) (omega arith)))

short_difference :
    (a b : ℕ)
    → a < 2 ^ 16
    → b < 2 ^ 16
    → a < b + 2 ^ 15
    → b ≤ a + 2 ^ 15
    → short (u16 (2 ^ 16 + a - b)) ≡ sub_ℕ a b
short_difference a b ha hb up down = ground arith

sub_ℕ-same : (a b : ℕ) → a ≡ b → sub_ℕ a b ≡ pos 0
sub_ℕ-same a b e = ground arith

module _ (spi_sync : SsiComento → ℕ → Synced SsiComento)
    (works : (s : SsiComento) (code : ℕ) → spi_sync s code ≡ message s code) where
  -- Over a bus that carries each message to the scale, a read of the file shows the weight less the
  -- offset as a signed number, if both fit 16 bits and the difference fits a short, changes neither
  -- register and leaves the mutex free.
  pub show_scale_weighs :
      (s : SsiComento) (csdev : Csdev)
      → IsValid s
      → s.scale < s.offset + 2 ^ 15
      → s.offset ≤ s.scale + 2 ^ 15
      → let r = show_scale spi_sync s csdev in
        (r.0 ≡ Shown.value (sub_ℕ s.scale s.offset))
        × (r.1.scale ≡ s.scale)
        × (r.1.offset ≡ s.offset)
        × (r.2.locked ≡ false)
  unfolding show_scale
  show_scale_weighs s csdev v up down =
      let shown =
        shown_value_lem (u16 (2 ^ 16 + s.scale - s.offset)) (omega arith)
        ∙ short_difference s.scale s.offset (v.scale_width) (v.offset_width) up down in
      rw (show_scale, works s get_scale_code, message_lem s get_scale_code v (inl refl))
        (ap Shown.value shown, refl, refl, refl)

  -- Over a bus that carries each message to the scale, with 16-bit registers and a free mutex, a
  -- write of a C string "zero\n" makes the weight the new offset, a write of other text leaves the
  -- offset, and both return the length, keep the weight and leave the mutex free.
  pub store_zero_tares :
      (s : SsiComento) (csdev : Csdev) (buf : List ℕ) (len : ℕ)
      → IsValid s
      → csdev.locked ≡ false
      → let r = store_zero spi_sync s csdev buf len in
        (r.0 ≡ Stored.length len)
        × (r.1.scale ≡ s.scale)
        × (c_string buf ≡ zero_text → r.1.offset ≡ s.scale)
        × (c_string buf ≢ zero_text → r.1.offset ≡ s.offset)
        × (r.2.locked ≡ false)
  unfolding store_zero
  store_zero_tares s csdev buf len v free =
      elim (Bool-cases (same_bytes (c_string buf) zero_text)) [
        | inl zero ↦
            rw (zero, works s set_zero_code, message_lem s set_zero_code v (inr refl))
              (
                refl,
                refl,
                λ e. refl,
                λ other. absurd (other (same_bytes-true (c_string buf) zero_text zero)),
                refl,
              )
        | inr other ↦ rw other (
          refl,
          refl,
          λ e. absurd (same_bytes-false (c_string buf) zero_text other e),
          λ e. refl,
          free,
        )
      ]

  balanced :
      (s : SsiComento) (csdev : Csdev)
      → IsValid s
      → s.scale ≡ s.offset
      → (show_scale spi_sync s csdev).0 ≡ Shown.value (pos 0)
  balanced s csdev v e =
      (show_scale_weighs s csdev v (omega arith) (omega arith)).0
      ∙ ap Shown.value (sub_ℕ-same s.scale s.offset e)

  -- Over a bus that carries each message to the scale, with 16-bit registers, a read of the file
  -- after "zero\n" was written shows 0, whatever the weight and the offset were.
  pub show-store_zero :
      (s : SsiComento) (csdev : Csdev) (buf : List ℕ) (len : ℕ)
      → IsValid s
      → c_string buf ≡ zero_text
      → let r = store_zero spi_sync s csdev buf len in
        (show_scale spi_sync (r.1) (r.2)).0 ≡ Shown.value (pos 0)
  unfolding show_scale store_zero
  show-store_zero s csdev buf len v is_zero =
      let again : IsValid (record s { offset = s.scale; cycle = 2 }) = record {
        scale_width = v.scale_width;
        offset_width = v.scale_width;
      } in
      let w : ℕ = u16 (2 ^ 16 + s.scale - tared s set_zero_code) in
      let after : Csdev = record csdev {
        tx_buf = set_zero_code;
        rx_buf = (w / 2 ^ 8, u8 w);
        locked = false;
      } in
      rw
        (
          is_zero,
          same_bytes_refl zero_text,
          works s set_zero_code,
          message_lem s set_zero_code v (inr refl),
        )
        (balanced _ after again refl)
