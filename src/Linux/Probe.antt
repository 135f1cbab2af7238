-- ===== src/Linux/Probe.antt =====
-- The life of a device in week02/mmio-driver.c: `probe`, which the kernel calls when the device and
-- the driver meet, and `remove`. The driver of linux/mmio.c has the same two functions without the
-- wake-up interrupt (`wakes` is false there). What the kernel's functions answer is in `Answers`,
-- and a device is named by a number, `adev`.
pub mod Undo
use device_driver_on_so_c.Prelude.{
  ℕ, ◌+◌, Bool, true, false, Option, none, some, ◌==◌, if◌then◌else◌, bit_or, u32,
}
use device_driver_on_so_c.Registers.{int_rx, int_tx}
use device_driver_on_so_c.Linux.Kernel.{Outcome, done, oops}
use device_driver_on_so_c.Linux.Table.{Table, Hashtable}

-- A number, or a negative error whose size is kept.
pub data Answer : Type 0 where
  got : ℕ → Answer
  failed : ℕ → Answer

abbrev pub enomem : ℕ
enomem = 12

-- What the kernel's functions return to one call of `probe`: an error, 0 for success; the major
-- number; whether there is memory.
pub record Answers : Type 0 where
  pub request_regions : ℕ
  pub register_chrdev : Answer
  pub class_create : ℕ
  pub kzalloc : Bool
  pub ioremap : Bool
  pub device_create : ℕ
  pub request_irq : ℕ

-- The static variables of the file, and what the kernel holds for each device: its regions, its
-- node under /dev and its entry in the table (both by minor number), its `cmdev` (by its minor
-- number), its handler, its two wake-up settings, and its register IMSC.
pub record Module : Type 0 where
  pub major : ℕ
  pub minor : ℕ
  pub class : Bool
  pub table : Table ℕ
  pub regions : ℕ → Bool
  pub nodes : ℕ → Bool
  pub drvdata : ℕ → Option ℕ
  pub handler : ℕ → Bool
  pub wakeup : ℕ → Bool
  pub wake_irq : ℕ → Bool
  pub imsc : ℕ → ℕ

-- A map with another value at one number.
abbrev pub put {ℓ} : {A : Type ℓ} → (ℕ → A) → ℕ → A → ℕ → A
put f k a j = if j == k then a else f j

-- Where `probe` is: still going, or on its way to `out` with an error.
pub data Attempt : Type 0 where
  going : Module → Attempt
  out : ℕ → Module → Attempt

abbrev pub next : Attempt → (Module → Attempt) → Attempt
next (going m) f = f m
next (out err m) f = out err m

module _ (hash : Hashtable) (wakes : Bool) (answers : Answers) (adev : ℕ) where
  -- The stages of `comento_mmio_probe`.
  unfoldable pub get_major : Module → Attempt
  get_major m =
      if m.major == 0
      then elim answers.register_chrdev [
        | got major ↦ going (record m { major = major })
        | failed err ↦ out err m
      ]
      else going m

  unfoldable pub get_class : Module → Attempt
  get_class m =
      if m.class
      then going m
      else if answers.class_create == 0
      then going (record m { class = true })
      else out answers.class_create m

  unfoldable pub get_memory : Module → Attempt
  get_memory m =
      if answers.kzalloc then (if answers.ioremap then going m else out enomem m) else out enomem m

  unfoldable pub add_node : Module → Attempt
  add_node m =
      if answers.device_create == 0
      then going (record m {
        minor = u32 (m.minor + 1);
        table = hash.add m.table m.minor adev;
        nodes = put m.nodes m.minor true;
        drvdata = put m.drvdata adev (some m.minor);
        wakeup = put m.wakeup adev true;
        imsc = put m.imsc adev (bit_or int_rx int_tx);
      })
      else out answers.device_create m

  unfoldable pub get_irq : Module → Attempt
  get_irq m =
      if answers.request_irq == 0
      then going (record m {
        handler = put m.handler adev true;
        wake_irq = if wakes then put m.wake_irq adev true else m.wake_irq;
        imsc = put m.imsc adev (bit_or int_rx int_tx);
      })
      else out answers.request_irq m

  -- From the label `out` on: the error, 0 for success.
  unfoldable pub finish : Attempt → ℕ × Module
  finish (going m) = (0, m)
  finish (out err m) = (err, record m { regions = put m.regions adev false })

  -- `comento_mmio_probe`
  unfoldable pub probe : Module → ℕ × Module
  unfolding finish get_major get_class get_memory add_node get_irq
  probe m =
      let held = record m { regions = put m.regions adev true } in
      if answers.request_regions == 0
      then finish (next (next (next (next (get_major held) get_class) get_memory) add_node) get_irq)
      else (answers.request_regions, m)

-- `comento_mmio_remove`; the handler and `cmdev` are the kernel's to free (`devm_`).
unfoldable pub remove : Hashtable → ℕ → Module → Outcome Module
remove hash adev m = elim (m.drvdata adev) [
  | none ↦ oops
  | some minor ↦ done (record m {
    nodes = put m.nodes minor false;
    table = hash.del m.table minor adev;
    wakeup = put m.wakeup adev false;
    wake_irq = put m.wake_irq adev false;
    regions = put m.regions adev false;
  })
]
