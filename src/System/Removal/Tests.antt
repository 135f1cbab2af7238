-- ===== src/System/Removal/Tests.antt =====
-- The program at a log of one byte, after a probe of the driver, and a write of two bytes after it.
use device_driver_on_so_c.Linux.Table.{Hashtable, chains}
use device_driver_on_so_c.Prelude.{
  ◌≡◌, ◌%◌, refl, arith, true, false, none, some, [], ◌∷◌, take, drop,
}
use device_driver_on_so_c.Qemu.Log.{MmioComento}
use device_driver_on_so_c.Qemu.Log.Posix.{one_path, one_path-NeverFails}
use device_driver_on_so_c.Qemu.Log.Appends.{IsOpen}
use device_driver_on_so_c.Linux.Kernel.{done}
use device_driver_on_so_c.Linux.Probe.{Answers, Module, got}
use device_driver_on_so_c.Linux.Log as Driver
use device_driver_on_so_c.Linux.User.{success, remove_log_main}
use device_driver_on_so_c.System.Logging.{log_bus}
use device_driver_on_so_c.System.Removal.{found, open_device, run_ioctl, probed, program_removes}

-- A table of 16 buckets
abbrev low_bits : Hashtable
low_bits = chains (λ minor. minor % 16)

abbrev all_given : Answers
all_given = record {
  request_regions = 0;
  register_chrdev = got 240;
  class_create = 0;
  kzalloc = true;
  ioremap = true;
  device_create = 0;
  request_irq = 0;
}

abbrev fresh_module : Module
fresh_module = record {
  major = 0;
  minor = 0;
  class = false;
  table = λ bucket. [];
  regions = λ adev. false;
  nodes = λ minor. false;
  drvdata = λ adev. none;
  handler = λ adev. false;
  wakeup = λ adev. false;
  wake_irq = λ adev. false;
  imsc = λ adev. 0;
}

-- A block whose log holds "a", open in the generation 4 of its path.
abbrev one_byte : MmioComento one_path
one_byte = record {
  irq = false;
  flag = 8;
  ris = 0;
  imsc = 3;
  log_file = some 4;
  disk = record { generation = 4; content = 97 ∷ [] };
}

one_byte-IsOpen : IsOpen one_path one_byte 4
one_byte-IsOpen = record { opened = refl; named = refl }

program_removes_example :
    let m = probed one_path low_bits all_given 7 fresh_module in
    (s' s'' : MmioComento one_path) × (remove_log_main
        (open_device one_path low_bits m)
        (run_ioctl one_path low_bits m)
        one_byte
      ≡ (success, s'))
    × (s'.disk.content ≡ [])
    × (Driver.write
          (log_bus one_path)
          (λ off n. take n (drop off (104 ∷ 105 ∷ [])))
          3
          (found one_path low_bits m s' 0)
          2
          5
        ≡ done (2, 7, s''))
    × (s''.disk.content ≡ [])
program_removes_example =
    program_removes one_path low_bits all_given 7 fresh_module one_path-NeverFails one_byte 4
      (λ off n. take n (drop off (104 ∷ 105 ∷ []))) (104 ∷ 105 ∷ []) 3 5 refl refl one_byte-IsOpen
      (λ off n. refl) (omega arith)
