-- ===== src/Linux/Spi.antt =====
-- The SPI driver of week05/spi.c. `spi_sync` is the kernel's: it sends the byte of `tx_buf`, then
-- receives the two bytes of `rx_buf`. The mutex is taken for the whole of each call, so a call is
-- one step here.
use device_driver_on_so_c.Prelude.{
  ℕ, ◌*◌, ◌^◌, Bool, true, false, not, bit_or, u16, Option, some, List, [], ◌∷◌, ◌==◌, ◌&&◌, ◌≡◌,
  arith, if◌then◌else◌, c_string, same_bytes,
}
use device_driver_on_so_c.Prelude.Int.{ℤ, short}

abbrev pub get_scale_code : ℕ
get_scale_code = 1

abbrev pub set_zero_code : ℕ
set_zero_code = 2

-- `spi_sync` fails with a negative number, whose size is kept, or brings two bytes.
pub data Synced (W : Type 0) : Type 0 where
  failed : ℕ → W → Synced W
  synced : ℕ → ℕ → W → Synced W

-- What a call returns: the number for `sprintf`, the length, or a negative error.
pub data Shown : Type 0 where
  value : ℤ → Shown
  error : ℕ → Shown

pub data Stored : Type 0 where
  length : ℕ → Stored
  error : ℕ → Stored

-- `struct comento_spi_device`; `spi_setup` has fixed the shape of the message.
pub record Csdev : Type 0 where
  pub tx_buf : ℕ
  pub rx_buf : ℕ × ℕ
  pub locked : Bool

-- What `comento_spi_probe` gets from the kernel: whether `spi_setup` failed, and with what,
-- whether there is memory for `csdev`, and whether `sysfs_create_group` works, which is not looked
-- at.
pub record SpiAnswers : Type 0 where
  pub setup_error : ℕ
  pub kzalloc : Bool
  pub group_created : Bool

-- The device of one chip select: its word size and mode, its `csdev` with the lengths of the two
-- transfers of its message, and whether its file is there.
pub record SpiDevice : Type 0 where
  pub bits_per_word : ℕ
  pub mode : ℕ
  pub drvdata : Option Csdev
  pub transfers : List ℕ
  pub has_group : Bool

-- `comento_spi_probe`: 0, or the size of the error.
unfoldable pub spi_probe : SpiAnswers → SpiDevice → ℕ × SpiDevice
spi_probe answers dev =
    let dev' = record dev { bits_per_word = 8; mode = 0 } in
    if not (answers.setup_error == 0)
    then (answers.setup_error, dev')
    else if not answers.kzalloc
    then (12, dev')
    else (
      0,
      record dev' {
        drvdata = some (record { tx_buf = 0; rx_buf = (0, 0); locked = false });
        transfers = 1 ∷ 2 ∷ [];
        has_group = answers.group_created;
      },
    )

-- `comento_spi_remove`; `csdev` is the kernel's to free.
unfoldable pub spi_remove : SpiDevice → SpiDevice
spi_remove dev = record dev { has_group = false }

-- For a device without the file, the file is there after the SPI probe exactly if that returned 0
-- and the kernel could make it, the message is one byte out and two in exactly if it returned 0,
-- and after remove the file is gone.
pub spi_remove-spi_probe :
    (answers : SpiAnswers) (dev : SpiDevice)
    → dev.has_group ≡ false
    → let r = spi_probe answers dev in
      (r.1.has_group ≡ ((r.0 == 0) && answers.group_created))
      × ((spi_remove r.1).has_group ≡ false)
      × (r.1.transfers ≡ (if r.0 == 0 then 1 ∷ 2 ∷ [] else dev.transfers))
unfolding spi_probe spi_remove
spi_remove-spi_probe answers dev absent = ground arith

-- `(rx_buf[0] << 8) | rx_buf[1]` in an `int`, stored in a `short`; `char` is unsigned on arm64.
unfoldable pub shown_value : ℕ × ℕ → ℤ
shown_value rx_buf = short (u16 (bit_or (rx_buf.0 * 2 ^ 8) rx_buf.1))

-- The text of `strcmp(buf, "zero\n")`
abbrev pub zero_text : List ℕ
zero_text = 0x7a ∷ 0x65 ∷ 0x72 ∷ 0x6f ∷ 0x0a ∷ []

-- `W` is the bus with what is on it.
module _ {W : Type 0} (spi_sync : W → ℕ → Synced W) where
  -- `comento_show_scale`
  unfoldable pub show_scale : W → Csdev → Shown × W × Csdev
  unfolding shown_value
  show_scale w csdev =
      let sent = record csdev { locked = true; tx_buf = get_scale_code } in
      elim (spi_sync w get_scale_code) [
        | failed err w' ↦ (Shown.error err, w', record sent { locked = false })
        | synced high low w' ↦ (
          Shown.value (shown_value (high, low)),
          w',
          record sent { rx_buf = (high, low); locked = false },
        )
      ]

  -- `comento_store_zero`; `buf` is the memory that the kernel hands over, with the 0 behind the text
  -- of `len` bytes.
  unfoldable pub store_zero : W → Csdev → List ℕ → ℕ → Stored × W × Csdev
  store_zero w csdev buf len =
      let sent = record csdev { locked = true; tx_buf = set_zero_code } in
      if not (same_bytes (c_string buf) zero_text)
      then (Stored.length len, w, csdev)
      else elim (spi_sync w set_zero_code) [
        | failed err w' ↦ (Stored.error err, w', record sent { locked = false })
        | synced high low w' ↦
            (Stored.length len, w', record sent { rx_buf = (high, low); locked = false })
      ]
