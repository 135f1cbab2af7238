-- ===== src/Qemu/Mmio/Tests.antt =====
-- Runs of the MMIO block of week03/mmio.c on concrete bytes, and the theorems at them.
use device_driver_on_so_c.Prelude.{
  c_string, ◌≡◌, ◌<◌, ◌^◌, refl, true, some, List, [], ◌∷◌, replicate,
}
use device_driver_on_so_c.Registers.{dr, icr, imsc_off, mis}
use device_driver_on_so_c.Qemu.Fifo.{enqueue, is_full}
use device_driver_on_so_c.Qemu.Fifo.Contents.{used, contents}
use device_driver_on_so_c.Qemu.Pipe as Pipe
use device_driver_on_so_c.Qemu.Pipe.{
  Op, guest_read, guest_write, host_get, host_set, byte, text, silent,
}
use device_driver_on_so_c.Qemu.Mmio.{
  MmioComento, update, read, write, set_data, get_data, fill, received, init,
}
use device_driver_on_so_c.Qemu.Mmio.Inv.{
  IsValid, init-IsValid, write-IsValid, set_data-IsValid, get_data_lem,
}
use device_driver_on_so_c.Qemu.Mmio.Refine.{run, run-init_refines}
use device_driver_on_so_c.Qemu.Mmio.Bounds.{InBounds, reached, reached-bounds}
use device_driver_on_so_c.Qemu.Mmio.Early as Early
use device_driver_on_so_c.Qemu.Mmio.Early.Same.{answers, is_old, all_old, same_answers}

-- "hi" from the host, a byte read, and 300, 65, a 0 that ends the string, and 66 written to the host.
abbrev traffic : List Op
traffic =
    host_set (104 ∷ 105 ∷ [])
    ∷ guest_read dr
    ∷ guest_write dr 300
    ∷ guest_write dr 65
    ∷ guest_write dr 0
    ∷ guest_write dr 66
    ∷ host_get
    ∷ []

traffic_answers :
    Pipe.run (record { outgoing = []; incoming = [] }) traffic
    ≡ silent ∷ byte 104 ∷ silent ∷ silent ∷ silent ∷ silent ∷ text (44 ∷ 65 ∷ []) ∷ []
unfolding Pipe.run Pipe.step Pipe.push Pipe.take_incoming c_string
traffic_answers = refl

run-init_refines_example :
    run init traffic ≡ some (Pipe.run (record { outgoing = []; incoming = [] }) traffic)
run-init_refines_example = run-init_refines traffic

abbrev one_byte : MmioComento
one_byte = write init dr 65

one_byte-IsValid : IsValid one_byte
one_byte-IsValid = write-IsValid dr 65 init-IsValid

write-IsValid_example : IsValid (write one_byte imsc_off 3)
write-IsValid_example = write-IsValid imsc_off 3 one_byte-IsValid

abbrev full : MmioComento
full = set_data init (replicate 40 7)

full-IsValid : IsValid full
full-IsValid = set_data-IsValid (replicate 40 7) init-IsValid

get_data_lem_example :
    (s' : MmioComento) × (get_data one_byte ≡ some (c_string (contents one_byte.transmit), s'))
    × IsValid s'
    × (used s'.transmit ≡ 0)
    × (s'.receive ≡ one_byte.receive)
get_data_lem_example = get_data_lem one_byte-IsValid

used-full : used full.receive ≡ 31
unfolding set_data fill received update is_full enqueue init
used-full = refl

-- The same traffic, and the interrupts enabled and read.
abbrev old_traffic : List Op
old_traffic = guest_write imsc_off 3 ∷ guest_read mis ∷ guest_write icr 1 ∷ traffic

old_traffic_is_old : all_old old_traffic ≡ true
unfolding all_old is_old
old_traffic_is_old = refl

same_answers_example :
    answers read write get_data set_data init old_traffic
    ≡ answers Early.read Early.write Early.get_data Early.set_data Early.init old_traffic
same_answers_example = same_answers old_traffic old_traffic_is_old

reached-bounds_example :
    (s : MmioComento) × (reached init traffic ≡ some s)
    × InBounds s.transmit
    × InBounds s.receive
    × (s.flag < 2 ^ 32)
    × (s.ris < 2 ^ 32)
    × (s.imsc < 2 ^ 32)
reached-bounds_example = reached-bounds traffic
