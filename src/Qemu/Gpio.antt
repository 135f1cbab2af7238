-- ===== src/Qemu/Gpio.antt =====
-- The lamps and the button of week04/gpio.c, on the pins of the GPIO controller. A string is the list
-- of its characters.
use device_driver_on_so_c.Prelude.{
  ℕ, ◌+◌, ◌≡◌, ◌≢◌, ◌<◌, zero, suc, Bool-cases, inl, inr, refl, arith, Bool, true, false, not, ◌&&◌,
  ◌||◌, List, [], ◌∷◌, ◌==◌, if◌then◌else◌,
}

-- What `printf` shows of a lamp: its colour by the number of the terminal, the first number of the
-- escape, and whether it is on.
pub record Lamp : Type 0 where
  pub color : ℕ
  pub style : ℕ
  pub is_on : Bool

-- `gpio_comento_handler`
unfoldable pub handler : ℕ → ℕ → Lamp
handler n level =
    let next : ℕ = n + 1 in
    let color : ℕ = if next == 3 then 4 else next in
    if not (level == 0)
    then record { color = color; style = 0; is_on = true }
    else record { color = color; style = 1; is_on = false }

-- `struct GPIO_COMENTO_State`; `key_pin` is the level last put on the pin.
pub record GpioComento : Type 0 where
  pub key_state : ℕ
  pub key_pin : Bool

-- "true", "True" and "False"
abbrev pub true_text : List ℕ
true_text = 116 ∷ 114 ∷ 117 ∷ 101 ∷ []

abbrev pub capital_true_text : List ℕ
capital_true_text = 84 ∷ 114 ∷ 117 ∷ 101 ∷ []

abbrev pub capital_false_text : List ℕ
capital_false_text = 70 ∷ 97 ∷ 108 ∷ 115 ∷ 101 ∷ []

-- `g_strcmp0` found no difference.
pub same : List ℕ → List ℕ → Bool
same [] [] = true
same [] (y ∷ ys) = false
same (x ∷ xs) [] = false
same (x ∷ xs) (y ∷ ys) = (x == y) && same xs ys

-- `gpio_comento_get_key`
unfoldable pub get_key : GpioComento → List ℕ
get_key s = if not (s.key_state == 0) then capital_true_text else capital_false_text

-- `gpio_comento_set_key`
unfoldable pub set_key : GpioComento → List ℕ → GpioComento
unfolding same
set_key s value =
    if not (same value true_text) && not (same value capital_true_text)
    then record { key_state = 0; key_pin = false }
    else record { key_state = 1; key_pin = true }

-- `gpio_comento_init`; the pin starts low, as QEMU makes it.
unfoldable pub init : GpioComento
init = record { key_state = 0; key_pin = false }

-- The state that QMP shows is the level on the pin.
pub record IsValid (s : GpioComento) : Type 0 where
  pub pin_follows : s.key_pin ≡ not (s.key_state == 0)
  pub key_is_bit : s.key_state < 2

pub init-IsValid : IsValid init
unfolding init
init-IsValid = record { pin_follows = refl; key_is_bit = omega arith }

pub set_key-IsValid : (s : GpioComento) (value : List ℕ) → IsValid (set_key s value)
unfolding set_key
set_key-IsValid s value =
    elim (Bool-cases (not (same value true_text) && not (same value capital_true_text))) [
      | inl other ↦ rw other (record { pin_follows = refl; key_is_bit = omega arith })
      | inr pressed ↦ rw pressed (record { pin_follows = refl; key_is_bit = omega arith })
    ]

-- After any text is set, the key reads back as "True" and its pin is high exactly if the text was
-- "true" or "True"; otherwise it reads "False" and the pin is low.
pub get_key-set_key :
    (s : GpioComento) (value : List ℕ)
    → let pressed = same value true_text || same value capital_true_text in
      (get_key (set_key s value) ≡ (if pressed then capital_true_text else capital_false_text))
      × ((set_key s value).key_pin ≡ pressed)
unfolding set_key get_key
get_key-set_key s value = ground arith

put_back :
    (key_state : ℕ) (key_pin : Bool)
    → key_state < 2
    → key_pin ≡ not (key_state == 0)
    → let s : GpioComento = record { key_state = key_state; key_pin = key_pin } in
      set_key s (get_key s) ≡ s
unfolding set_key get_key same
put_back zero key_pin h e = rw e refl
put_back (suc zero) key_pin h e = rw e refl
put_back (suc (suc k)) key_pin h e = absurd (omega arith)

-- Setting the key to what it reads as leaves a state as it is, if the pin follows the key and the
-- key is 0 or 1.
pub set_key-get_key : (s : GpioComento) → IsValid s → set_key s (get_key s) ≡ s
set_key-get_key s v = put_back s.key_state s.key_pin (v.key_is_bit) (v.pin_follows)

-- A lamp is shown on exactly at a high level, and none of the three is black or yellow.
pub handler_lem :
    (n level : ℕ)
    → n < 3
    → ((handler n level).is_on ≡ not (level == 0))
      × ((handler n level).color ≢ 0)
      × ((handler n level).color ≢ 3)
unfolding handler
handler_lem n level h = ground arith
