-- ===== src/Linux/User.antt =====
-- The two programs for the user's side: qemu/ioctl.c, which has the log removed, and
-- week04/user-gpio.c, which lights the lamps. What the C library and libgpiod do is a parameter.
use device_driver_on_so_c.Prelude.{ℕ, Bool, Option, none, some, List, [], ◌∷◌, if◌then◌else◌}
use device_driver_on_so_c.Linux.Log.{ioctl_remove}

-- How `main` of qemu/ioctl.c ends.
pub data Exit : Type 0 where
  success open_failed ioctl_failed : Exit

-- `main` of qemu/ioctl.c. `open_device` gives a descriptor, and `ioctl` tells whether the call
-- returned a number that is not negative.
unfoldable pub remove_log_main :
    {W Fd : Type 0} → (W → Option Fd × W) → (W → Fd → ℕ → Bool × W) → W → Exit × W
remove_log_main open_device ioctl w =
    let (fd, w₁) = open_device w in
    elim fd [
      | none ↦ (open_failed, w₁)
      | some fd ↦
          let (fine, w₂) = ioctl w₁ fd ioctl_remove in (if fine then success else ioctl_failed, w₂)
    ]

-- What the program of week04/user-gpio.c asks of a line, or shows.
pub data Call : Type 0 where
  request_output set_value : ℕ → ℕ → Call
  request_input sleep show_key : ℕ → Call

-- `main` of week04/user-gpio.c, for the values that line 3 has before and after the sleep.
unfoldable pub lamps_main : ℕ → ℕ → List Call
lamps_main key_before key_after =
    request_output 0 1
    ∷ request_output 1 1
    ∷ request_output 2 1
    ∷ request_input 3
    ∷ show_key key_before
    ∷ sleep 5
    ∷ set_value 0 0
    ∷ set_value 1 0
    ∷ set_value 2 0
    ∷ show_key key_after
    ∷ []
