-- ===== src/Linux/Probe/Undo.antt =====
-- What `probe` of week02/mmio-driver.c and linux/mmio.c gives back when it fails, and what `remove`
-- gives back after it succeeded.
use device_driver_on_so_c.Prelude.{
  ℕ, ◌≡◌, ◌<◌, refl, ap, ◌∙◌, arith, Bool, true, false, not, ◌&&◌, ◌||◌, some, ◌==◌,
}
use device_driver_on_so_c.Linux.Kernel.{done}
use device_driver_on_so_c.Linux.Table.{Table, get_device, get_device-hash_add, Hashtable}
use device_driver_on_so_c.Linux.Probe.{
  Answer, got, failed, Answers, Module, put, get_major, get_class, get_memory, add_node, get_irq,
  finish, probe, remove,
}

-- An error is not 0: `register_chrdev` fails with a negative number.
abbrev pub IsError : Answer → Type 0
IsError (got major) = 0 < major
IsError (failed err) = 0 < err

-- Whether each call that `probe` makes succeeds.
abbrev pub all_succeed : Answers → Module → Bool
all_succeed answers m =
    (answers.request_regions == 0)
    && (not (m.major == 0) || elim answers.register_chrdev [ got _ ↦ true | failed _ ↦ false ])
    && (m.class || answers.class_create == 0)
    && answers.kzalloc
    && answers.ioremap
    && (answers.device_create == 0)
    && (answers.request_irq == 0)

-- The module after `remove` of a device that has a minor number.
abbrev removed : Hashtable → ℕ → Module → ℕ → Module
removed hash adev m minor = record m {
  nodes = put m.nodes minor false;
  table = hash.del m.table minor adev;
  wakeup = put m.wakeup adev false;
  wake_irq = put m.wake_irq adev false;
  regions = put m.regions adev false;
}

remove_lem :
    (hash : Hashtable) (adev : ℕ) (m : Module) (minor : ℕ)
    → m.drvdata adev ≡ some minor
    → remove hash adev m ≡ done (removed hash adev m minor)
unfolding remove
remove_lem hash adev m minor e = rw (remove, e) refl

module _ (hash : Hashtable) (wakes : Bool) (answers : Answers) (adev : ℕ) (m : Module) where
  -- For a register_chrdev whose results are not 0, probe returns 0 exactly when each of the kernel
  -- calls that it needs succeeds.
  pub probe-0 :
      IsError answers.register_chrdev
      → ((probe hash wakes answers adev m).0 == 0) ≡ all_succeed answers m
  unfolding probe finish get_major get_class get_memory add_node get_irq
  probe-0 e = ground arith

  -- A probe that fails at any stage leaves the device without its regions, if it had none before.
  pub probe_releases :
      m.regions adev ≡ false
      → all_succeed answers m ≡ false
      → (probe hash wakes answers adev m).1.regions adev ≡ false
  unfolding probe finish get_major get_class get_memory add_node get_irq
  probe_releases free e = ground arith

  -- A probe that fails at a stage before the interrupt leaves the table of devices, the nodes
  -- under /dev and the minor number as they were.
  pub early_failure :
      answers.request_irq ≡ 0
      → all_succeed answers m ≡ false
      → let m' = (probe hash wakes answers adev m).1 in
        (m'.table ≡ m.table) × (m'.nodes ≡ m.nodes) × (m'.minor ≡ m.minor)
  unfolding probe finish get_major get_class get_memory add_node get_irq
  early_failure irq e = ground arith

  -- What stands after the stage that adds the node, whether the interrupt is then given or not.
  pub added :
      all_succeed (record answers { request_irq = 0 }) m ≡ true
      → let r = probe hash wakes answers adev m in
        (r.0 ≡ answers.request_irq)
        × (r.1.table ≡ hash.add m.table m.minor adev)
        × (r.1.nodes ≡ put m.nodes m.minor true)
        × (r.1.drvdata adev ≡ some m.minor)
        × (r.1.regions adev ≡ (answers.request_irq == 0))
        × (r.1.handler adev ≡ (m.handler adev || (answers.request_irq == 0)))
  unfolding probe finish get_major get_class get_memory add_node get_irq
  added e = ground arith

  -- A probe that fails because the interrupt is refused returns that error and releases the
  -- regions, but leaves its entry in the table and its node under /dev, with no handler added.
  pub late_failure :
      all_succeed (record answers { request_irq = 0 }) m ≡ true
      → 0 < answers.request_irq
      → let r = probe hash wakes answers adev m in
        (r.0 ≡ answers.request_irq)
        × (r.1.regions adev ≡ false)
        × (get_device hash r.1.table m.minor ≡ some adev)
        × (r.1.nodes m.minor ≡ true)
        × (r.1.handler adev ≡ m.handler adev)
  late_failure e refused =
      let (err, table, nodes, minor, regions, handler) = added e in
      (
        err,
        regions ∙ ground arith,
        ap (λ (t : Table ℕ). get_device hash t m.minor) table
            ∙ get_device-hash_add hash m.table m.minor m.minor adev
            ∙ ground arith,
        ap (λ (f : ℕ → Bool). f m.minor) nodes ∙ ground arith,
        handler ∙ ground arith,
      )

  -- After a probe that succeeded, for free regions and a minor number without a node, remove
  -- restores the table and the nodes, releases the regions and turns both wake-up settings off.
  pub remove-probe :
      all_succeed answers m ≡ true
      → m.regions adev ≡ false
      → m.nodes m.minor ≡ false
      → (m' : Module) × (remove hash adev (probe hash wakes answers adev m).1 ≡ done m')
        × (m'.table ≡ m.table)
        × ((k : ℕ) → m'.nodes k ≡ m.nodes k)
        × (m'.regions adev ≡ false)
        × (m'.wakeup adev ≡ false)
        × (m'.wake_irq adev ≡ false)
  remove-probe e free fresh =
      let (err, table, nodes, minor, regions, handler) = added (ground arith) in
      let m' : Module = (probe hash wakes answers adev m).1 in
      (
        removed hash adev m' m.minor,
        remove_lem hash adev m' m.minor minor,
        ap (λ (t : Table ℕ). hash.del t m.minor adev) table ∙ hash.del-add m.table m.minor adev,
        λ k. ap (λ (f : ℕ → Bool). put f m.minor false k) nodes ∙ ground arith,
        ground arith,
        ground arith,
        ground arith,
      )
