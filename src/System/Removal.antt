-- ===== src/System/Removal.antt =====
-- The program of qemu/ioctl.c on the driver of linux/mmio.c, and that on the block of qemu/mmio.c. It
-- opens /dev/comento-mmio0, the node of the minor number 0.
mod Tests
use device_driver_on_so_c.Prelude.{
  ℕ, ◌+◌, ◌<◌, ◌≡◌, refl, ap, ◌∙◌, arith, Bool, true, false, Option, none, some, List, [], length,
  if◌then◌else◌, ◌&&◌, ◌==◌,
}
use device_driver_on_so_c.Qemu.Log.{MmioComento}
use device_driver_on_so_c.Qemu.Log.Posix.{Files, NeverFails}
use device_driver_on_so_c.Qemu.Log.Appends.{IsOpen}
use device_driver_on_so_c.Linux.Kernel.{Outcome, done, oops, running}
use device_driver_on_so_c.Linux.Table.{get_device, get_device-hash_add, Hashtable}
use device_driver_on_so_c.Linux.Probe.{Answers, Module, put}
use device_driver_on_so_c.Linux.Probe.Undo.{all_succeed, added}
use device_driver_on_so_c.Linux.Log as Driver
use device_driver_on_so_c.Linux.Log.{Answer, ok, invalid}
use device_driver_on_so_c.Linux.User.{Exit, success, remove_log_main}
use device_driver_on_so_c.Linux.Writing.Sends.{Readable}
use device_driver_on_so_c.System.Logging.{log_bus, ioctl_removes, write_vanishes}

program_succeeds :
    {W Fd : Type 0} (open_device : W → Option Fd × W) (ioctl : W → Fd → ℕ → Bool × W) (w w₁ w₂ : W)
    (fd : Fd)
    → open_device w ≡ (some fd, w₁)
    → ioctl w₁ fd Driver.ioctl_remove ≡ (true, w₂)
    → remove_log_main open_device ioctl w ≡ (success, w₂)
unfolding remove_log_main
program_succeeds {W} {Fd} open_device ioctl w w₁ w₂ fd e e' =
    let opened : (open_device w).0 ≡ some fd = ap (λ (r : Option Fd × W). r.0) e in
    let after : (open_device w).1 ≡ w₁ = ap (λ (r : Option Fd × W). r.1) e in
    rw (remove_log_main, opened, after, e') refl

module _ (files : Files) where
  open files use {Stream, logged}

  -- What the program sees of an ioctl: whether its result is negative, and the block after it. It
  -- does not come back from a call that follows a null pointer.
  abbrev pub result :
      MmioComento files → Outcome (Answer × Option (MmioComento files)) → Bool × MmioComento files
  result s (done (ok, some s')) = (true, s')
  result s (done (ok, none)) = (true, s)
  result s (done (invalid, d)) = (false, s)
  result s oops = (false, s)
  result s running = (false, s)

  module _ (hash : Hashtable) (m : Module) where
    -- The block behind the `cmdev` that the driver finds for a minor number
    abbrev pub found : MmioComento files → ℕ → Option (MmioComento files)
    found s minor = elim (get_device hash m.table minor) [ none ↦ none | some adev ↦ some s ]

    -- `open` of the node, and `ioctl` on it; the descriptor is the minor number.
    abbrev pub open_device : MmioComento files → Option ℕ × MmioComento files
    open_device s = (if m.nodes 0 then some 0 else none, s)

    abbrev pub run_ioctl : MmioComento files → ℕ → ℕ → Bool × MmioComento files
    run_ioctl s fd cmd = result s (Driver.ioctl (log_bus files) (found s fd) cmd)

    found-entry :
        (s : MmioComento files) (adev : ℕ)
        → get_device hash m.table 0 ≡ some adev
        → found s 0 ≡ some s
    found-entry s adev entry = rw (found, entry) refl

    open_device-node : (s : MmioComento files) → m.nodes 0 ≡ true → open_device s ≡ (some 0, s)
    open_device-node s node = rw (open_device, node) refl

  module _ (hash : Hashtable) (answers : Answers) (adev : ℕ) (m₀ : Module) where
    abbrev pub probed : Module
    probed = (Driver.probe hash answers adev m₀).1

    ready :
        all_succeed answers m₀ ≡ true
        → m₀.minor ≡ 0
        → (probed.nodes 0 ≡ true) × (get_device hash probed.table 0 ≡ some adev)
    ready e first =
        let (err, table, nodes, minor, regions, handler) =
          added hash false answers adev m₀ (ground arith) in
        (
          ap (λ (f : ℕ → Bool). f 0) nodes ∙ ground arith,
          ap (λ t. get_device hash t 0) table
              ∙ get_device-hash_add hash m₀.table m₀.minor 0 adev
              ∙ ground arith,
        )

    -- After a probe of linux/mmio.c that succeeds for the minor number 0, the program of
    -- qemu/ioctl.c, run on a block that has the log open, ends with success and, if remove and the
    -- writes of files never fail, leaves nothing at the path of the log; and a write of a readable
    -- buffer after it still returns its length with at most one round per byte, but the path stays
    -- empty.
    pub program_removes :
        NeverFails files
        → (s : MmioComento files) (stream : Stream) (copy_in : ℕ → ℕ → List ℕ) (bytes : List ℕ)
          (fuel ppos : ℕ)
        → all_succeed answers m₀ ≡ true
        → m₀.minor ≡ 0
        → IsOpen files s stream
        → Readable copy_in bytes
        → length bytes < fuel
        → (s' s'' : MmioComento files) × (remove_log_main
              (open_device hash probed)
              (run_ioctl hash probed)
              s
            ≡ (success, s'))
          × (logged s'.disk ≡ [])
          × (Driver.write (log_bus files) copy_in fuel (found hash probed s' 0) (length bytes) ppos
              ≡ done (length bytes, ppos + length bytes, s''))
          × (logged s''.disk ≡ [])
    program_removes works s stream copy_in bytes fuel ppos e first v user enough =
        let (node, entry) = ready e first in
        let (s', removes, lost, gone, raised) = ioctl_removes files works s stream v in
        let (s'', writes, still, same) =
          write_vanishes files copy_in bytes user fuel s' stream ppos enough lost in
        (
          s',
          s'',
          program_succeeds (open_device hash probed) (run_ioctl hash probed) s s s' 0
              (open_device-node hash probed s node)
              (ap
                  (λ (cmdev : Option (MmioComento files)).
                    result s (Driver.ioctl (log_bus files) cmdev Driver.ioctl_remove))
                  (found-entry hash probed s adev entry)
                ∙ ap (result s) removes),
          gone,
          ap
                (λ (cmdev : Option (MmioComento files)).
                  Driver.write (log_bus files) copy_in fuel cmdev (length bytes) ppos)
                (found-entry hash probed s' adev entry)
              ∙ writes,
          same ∙ gone,
        )
