-- ===== src/System/Transfer.antt =====
-- The bytes that a DMA controller moves between memory and the data register of the block of
-- week03/mmio.c. The controller is QEMU's PL330; what is used of it is that it moves a byte only
-- while the busy line of that direction is low. The host may read and set the property `data` in
-- between, as it likes.
pub mod Signals
pub mod DmaToUser
pub mod UserToHost
pub mod Restart
mod Tests
use device_driver_on_so_c.Prelude.{
  ℕ, zero, suc, ◌<◌, ◌≤◌, ◌≡◌, ◌+◌, refl, sym, ap, ◌∙◌, arith, inl, inr, true, false, some, List,
  [], ◌∷◌, ◌++◌, append-nil, append_assoc, map, Bool-cases, u8, length,
}
use device_driver_on_so_c.Registers.{dr}
use device_driver_on_so_c.Qemu.Fifo.Contents.{
  used, contents, contents_of_unused, used-le, length-contents,
}
use device_driver_on_so_c.Qemu.Mmio.{MmioComento, read, write, take_data, set_data}
use device_driver_on_so_c.Qemu.Mmio.Inv.{
  IsValid, write-IsValid, read-IsValid, set_data-IsValid, take_data_lem,
}
use device_driver_on_so_c.Qemu.Mmio.Flags.{last_read_signals}
use device_driver_on_so_c.Qemu.Mmio.Refine.{contents-set_data, contents-read-dr}
use device_driver_on_so_c.System.Machine.{Machine, sent_so_far, host_reads, host_reads-Wakes}
use device_driver_on_so_c.System.Transmit.{put-sent}

-- `Moves m xs m'`: the controller can move the list `xs` to the data register, from `m` to `m'`.
pub data Moves : Machine → List ℕ → Machine → Type 0 where
  moved : {m : Machine} → Moves m [] m
  host_empties :
      {m : Machine} {xs : List ℕ} {m' : Machine} → Moves (host_reads m) xs m' → Moves m xs m'
  host_sets :
      {m : Machine} {xs : List ℕ} {m' : Machine} (ys : List ℕ)
      → Moves (set_data m.0 ys, m.1) xs m'
      → Moves m xs m'
  moves_byte :
      {m : Machine} {x : ℕ} {xs : List ℕ} {m' : Machine}
      → m.0.dma_tx_busy ≡ false
      → Moves (write m.0 dr x, m.1) xs m'
      → Moves m (x ∷ xs) m'

-- From a valid block, the bytes that the reads of the host took out of the transmit buffer, with
-- those still in it, grow by exactly the list that a controller moves which writes DR only while
-- the transmit line is low, in order, whatever the host reads and sets meanwhile, and the block
-- stays valid. (Of the bytes that a read takes out, the host gets those before the first 0.)
pub transfer_delivers :
    {m m' : Machine} {xs : List ℕ}
    → Moves m xs m'
    → IsValid m.0
    → IsValid m'.0 × (sent_so_far m' ≡ sent_so_far m ++ map u8 xs)
transfer_delivers {m} moved v = (v, sym (append-nil (sent_so_far m)))
transfer_delivers {m} {xs = xs} (host_empties rest) v =
    let (v', grown) = transfer_delivers rest (host_reads-Wakes.stays_valid m v) in
    (v', grown ∙ ap (λ (l : List ℕ). l ++ map u8 xs) (host_reads-Wakes.conserved m v))
transfer_delivers {m} {xs = xs} (host_sets ys rest) v =
    let (v', grown) = transfer_delivers rest (set_data-IsValid ys v) in
    (v', grown ∙ ap (λ f. (m.1 ++ contents f) ++ map u8 xs) (contents-set_data ys v).1)
transfer_delivers {m} (moves_byte {x = x} {xs = xs} low rest) v =
    let (v', grown) = transfer_delivers rest (write-IsValid dr x v) in
    (
      v',
      grown
          ∙ ap (λ (l : List ℕ). l ++ map u8 xs)
              (put-sent m x v (ground (arith, v.tx_busy, used-le m.0.transmit)))
          ∙ append_assoc (sent_so_far m) (u8 x ∷ []) (map u8 xs),
    )

-- From a valid block such a controller can move any list to its end, with a host that reads the
-- property data in between: the transmit line never stays high for good.
pub transfer_completes : (xs : List ℕ) (m : Machine) → IsValid m.0 → (m' : Machine) × Moves m xs m'
transfer_completes [] m v = (m, moved)
transfer_completes (x ∷ xs) m v =
    let v' : IsValid (host_reads m).0 = host_reads-Wakes.stays_valid m v in
    let low : (host_reads m).0.dma_tx_busy ≡ false =
      v'.tx_busy.1 (omega (arith, host_reads-Wakes.room m v)) in
    let (m', rest) =
      transfer_completes xs (write (host_reads m).0 dr x, (host_reads m).1)
        (write-IsValid dr x v') in
    (m', host_empties (moves_byte low rest))

-- `Takes m xs m'`: the controller can take the bytes `xs` from the data register, from `m` to `m'`.
pub data Takes : Machine → List ℕ → Machine → Type 0 where
  taken : {m : Machine} → Takes m [] m
  takes_byte :
      {m : Machine} {xs : List ℕ} {m' : Machine}
      → m.0.dma_rx_busy ≡ false
      → Takes ((read m.0 dr).1, m.1) xs m'
      → Takes m ((read m.0 dr).0 ∷ xs) m'

-- The receive line is high exactly while there is nothing to take. This holds from the first
-- message of the host on; at reset the line is low although the buffer is empty.
abbrev pub LineExact : MmioComento → Type 0
LineExact s = used s.receive ≡ 0 → s.dma_rx_busy ≡ true

-- From a valid block whose receive line is exact, the controller takes the bytes of the receive
-- buffer in order and none besides, and the line stays exact.
pub takes_receive :
    {m m' : Machine} {xs : List ℕ}
    → Takes m xs m'
    → IsValid m.0
    → LineExact m.0
    → IsValid m'.0 × LineExact m'.0 × (contents m.0.receive ≡ xs ++ contents m'.0.receive)
takes_receive taken v exact = (v, exact, refl)
takes_receive {m} (takes_byte low rest) v exact =
    let some_left : 0 < used m.0.receive = ground (arith, exact) in
    let (first, fewer, same) = contents-read-dr v some_left in
    let (v', exact', later) =
      takes_receive rest (read-IsValid dr v) (λ none_left. (last_read_signals v (omega arith)).4) in
    (v', exact', first ∙ ap (λ (l : List ℕ). (read m.0 dr).0 ∷ l) later)

-- Such a controller can take all of the receive buffer, and then finds the line high.
pub takes_all :
    (n : ℕ) (m : Machine)
    → used m.0.receive ≡ n
    → IsValid m.0
    → LineExact m.0
    → (m' : Machine) × Takes m (contents m.0.receive) m' × (m'.0.dma_rx_busy ≡ true)
takes_all zero m count v exact = (m, rw (contents_of_unused m.0.receive count) taken, exact count)
takes_all (suc n) m count v exact =
    let (first, fewer, same) = contents-read-dr v (omega arith) in
    let (m', rest, high) =
      takes_all n ((read m.0 dr).1, m.1) (omega arith) (read-IsValid dr v)
        (λ none_left. (last_read_signals v (omega arith)).4) in
    (m', rw first (takes_byte (ground (arith, v.rx_busy)) rest), high)
