-- ===== src/System/Transfer/UserToHost.antt =====
-- From a write of a user process to the host: the driver of week03/mmio-driver.c, a DMA controller
-- that obeys the transmit line, and the block of week03/mmio.c.
use device_driver_on_so_c.Prelude.{
  ℕ, ◌+◌, ◌≤◌, ◌<◌, ◌≡◌, ◌⊎◌, Bool, false, ◌&&◌, some, List, ◌++◌, length, take, map, u8,
}
use device_driver_on_so_c.Qemu.Mmio.Inv.{IsValid}
use device_driver_on_so_c.Linux.Kernel.{done}
use device_driver_on_so_c.Linux.Writing.Sends.{Readable}
use device_driver_on_so_c.Linux.Dma.Bare.{Cmdev, write}
use device_driver_on_so_c.Linux.Dma.Bare.Send.{waits, pending, write_moves}
use device_driver_on_so_c.System.Machine.{Machine, sent_so_far}
use device_driver_on_so_c.System.Transfer.{Moves, transfer_delivers, transfer_completes}

module _ (copy_in : ℕ → ℕ → List ℕ) (map_works prep_works : ℕ → Bool) (bytes : List ℕ)
    (user : Readable copy_in bytes) where
  -- A write of a readable buffer by the driver of week03, whose mapping follows its job, returns,
  -- if no signal wakes the writer and no other process writes meanwhile, with at most one round per
  -- byte, and stops early only where the list cannot be mapped or the job not prepared; a
  -- controller that obeys the transmit line of a valid block can then move, while the host reads
  -- the property data in between, what was on the way and the bytes counted, and the bytes that the
  -- reads took out of the transmit buffer, with those still in it, grow by exactly these, in order.
  -- (Of the bytes that a read takes out, the host gets those before the first 0.)
  pub dma_to_host :
      (fuel : ℕ) (c : Cmdev) (ppos : ℕ) (m : Machine)
      → length bytes < fuel
      → c.tx.mapped ≡ c.tx.queued
      → IsValid m.0
      → (n : ℕ) × (c' : Cmdev) × (m' : Machine) × (write copy_in waits map_works prep_works fuel
            (some c)
            (length bytes)
            ppos
          ≡ done (n, ppos + n, some c'))
        × (n ≤ length bytes)
        × ((n ≡ length bytes) ⊎ (map_works n && prep_works n ≡ false))
        × (c'.wire ≡ c.wire ++ (pending c ++ take n bytes))
        × Moves m (pending c ++ take n bytes) m'
        × IsValid m'.0
        × (sent_so_far m' ≡ sent_so_far m ++ map u8 (pending c ++ take n bytes))
  dma_to_host fuel c ppos m h v valid =
      let (n, c', ended, fits, sent, idle, unmapped, why) =
        write_moves copy_in map_works prep_works bytes user fuel c ppos h v in
      let (m', run) = transfer_completes (pending c ++ take n bytes) m valid in
      let (valid', grown) = transfer_delivers run valid in
      (n, c', m', ended, fits, why, sent, run, valid', grown)
