-- ===== src/System/Between.antt =====
-- What can happen in the middle of a call of week02/mmio-driver.c over the block of week03/mmio.c:
-- before each access of the call to a register, the host reads and sets the property `data` and the
-- interrupt handler runs, any number of times and in any order. The driver's other calls wait for its
-- lock.
pub mod Kept
pub mod Receive
pub mod Transmit
pub mod Overrun
mod Tests
use device_driver_on_so_c.Prelude.{
  ℕ, ◌+◌, ◌-◌, ◌≤◌, ◌<◌, ◌≡◌, refl, sym, ap, ◌∙◌, arith, List, [], ◌∷◌, ◌++◌, append-nil,
  append_assoc, map, length, length-append, take_all, u8,
}
use device_driver_on_so_c.Qemu.Fifo.Contents.{used, contents, length-contents}
use device_driver_on_so_c.Qemu.Pipe.{push}
use device_driver_on_so_c.Qemu.Mmio.{read, write, set_data}
use device_driver_on_so_c.Qemu.Mmio.Inv.{IsValid, set_data-IsValid, take_data_lem}
use device_driver_on_so_c.Qemu.Mmio.Refine.{contents-set_data}
use device_driver_on_so_c.Linux.Kernel.{Bus}
use device_driver_on_so_c.Linux.Pio.{interrupt}
use device_driver_on_so_c.System.Machine.{
  Machine, machine_bus, sent_so_far, host_reads, host_reads-Wakes,
}

pub data Act : Type 0 where
  gets interrupts : Act
  sets : List ℕ → Act

-- What comes before the next access, before the one after it, and so on
abbrev pub Visits : Type 0
Visits = List (List Act)

-- The string that an act sets, and those of several acts
unfoldable pub given_by : Act → List ℕ
given_by gets = []
given_by interrupts = []
given_by (sets xs) = xs

unfoldable pub given : List Act → List ℕ
unfolding given_by
given [] = []
given (a ∷ acts) = given_by a ++ given acts

unfoldable pub offered : Visits → List ℕ
unfolding given
offered [] = []
offered (acts ∷ later) = given acts ++ offered later

module _ (sleep : Machine → Machine) where
  unfoldable pub act : Machine → Act → Machine
  act m gets = host_reads m
  act m interrupts = (interrupt (machine_bus sleep) m).2
  act m (sets xs) = (set_data m.0 xs, m.1)

  unfoldable pub act_all : Machine → List Act → Machine
  unfolding act
  act_all m [] = m
  act_all m (a ∷ acts) = act_all (act m a) acts

  abbrev pub Visited : Type 0
  Visited = Machine × Visits

  unfoldable pub meanwhile : Visited → Visited
  unfolding act_all
  meanwhile (m, []) = (m, [])
  meanwhile (m, acts ∷ later) = (act_all m acts, later)

  abbrev pub between_bus : Bus
  between_bus = record {
    Block = Visited;
    readl = λ b offset.
        let b' = meanwhile b in let (r, s) = read b'.0.0 offset in (r, ((s, b'.0.1), b'.1));
    writel = λ b offset value. let b' = meanwhile b in ((write b'.0.0 offset value, b'.0.1), b'.1);
    sleep = λ b. (sleep b.0, b.1);
  }
