-- ===== src/System/Steps.antt =====
-- The driver of week02/mmio-driver.c and the block of week03/mmio.c as one machine: what the host,
-- the interrupt line, the kernel's work queue and a writing process can do, one step at a time and
-- in any order. A call of the handler or of the work is one step: what happens in the middle
-- of one is in System.Between.
pub mod Inv
pub mod Arrives
mod Tests
use device_driver_on_so_c.Prelude.{ℕ, ◌≡◌, Bool, true, false, ◌||◌, List, [], ◌∷◌, ◌+◌, has}
use device_driver_on_so_c.Registers.{dr, flag_txff}
use device_driver_on_so_c.Qemu.Mmio.{write, set_data}
use device_driver_on_so_c.Linux.Kernel.{done}
use device_driver_on_so_c.Linux.Pio.{
  Action, wake_tx_wq, schedule_rx_work, Cmdev, interrupt, rx_work,
}
use device_driver_on_so_c.System.Machine.{Machine, machine_bus, host_reads}

-- Whether the actions of a handler schedule the receive work; work that is scheduled already stays
-- scheduled once.
pub schedules : List Action → Bool
schedules [] = false
schedules (wake_tx_wq ∷ actions) = schedules actions
schedules (schedule_rx_work ∷ actions) = true

module _ (sleep : Machine → Machine) where
  -- The device, and whether its receive work waits in the queue.
  pub record Running : Type 0 where
    pub device : Cmdev (machine_bus sleep)
    pub scheduled : Bool

  abbrev pub at_base : Running → Machine → Running
  at_base r m = record r { device = record (r.device) { base = m } }

  -- What the handler leaves behind when the line is high
  abbrev pub handled : Running → Running
  handled r =
      let (ret, actions, m) = interrupt (machine_bus sleep) r.device.base in
      record (at_base r m) { scheduled = r.scheduled || schedules actions }

  -- What the kernel does by itself: it calls the handler while the line is high, and runs work that
  -- is scheduled.
  pub data Served : Running → Running → Type 0 where
    line_high : {r : Running} → r.device.base.0.irq ≡ true → Served r (handled r)
    work_runs :
        {r : Running} {device : Cmdev (machine_bus sleep)}
        → r.scheduled ≡ true
        → rx_work (machine_bus sleep) 32 r.device ≡ done device
        → Served r (record { device = device; scheduled = false })

  pub data Step : Running → Running → Type 0 where
    host_sets :
        {r : Running} (xs : List ℕ)
        → Step r (at_base r (set_data r.device.base.0 xs, r.device.base.1))
    host_empties : {r : Running} → Step r (at_base r (host_reads r.device.base))
    kernel : {r r' : Running} → Served r r' → Step r r'
    sends_byte :
        {r : Running} (x : ℕ)
        → has r.device.base.0.flag flag_txff ≡ false
        → Step r (at_base r (write r.device.base.0 dr x, r.device.base.1))

  -- Any number of steps
  pub data Steps : Running → Running → Type 0 where
    no_more : {r : Running} → Steps r r
    then_more : {r r' r'' : Running} → Step r r' → Steps r' r'' → Steps r r''

  -- So many steps of the kernel alone
  pub data ServedIn : ℕ → Running → Running → Type 0 where
    at_once : {r : Running} → ServedIn 0 r r
    next : {n : ℕ} {r r' r'' : Running} → Served r r' → ServedIn n r' r'' → ServedIn (n + 1) r r''
