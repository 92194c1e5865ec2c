-- ===== src/E1000e/Driver/Tests.antt =====
-- The driver on concrete inputs, and the theorems about it at such inputs.
use driver_workflow.Prelude.{ℕ, ◌<◌, ◌≡◌, inr, refl, true, Option, none, some, [], arith, replicate}
use driver_workflow.Sample.{byte_memory, write_log, counted_pool, map_frames}
use driver_workflow.Bits.{has}
use driver_workflow.E1000
use driver_workflow.E1000e.Regs.{rx_desc_count}
use driver_workflow.E1000e.Desc.{alloc_rx_ring, fill_ring, fill_from, fill_slot, empty_ring}
use driver_workflow.E1000e.Tx
use driver_workflow.E1000e.Tx.Legacy.{legacy}
use driver_workflow.E1000e.Rx.Sample.{busy, busy-Holding, busy-waits, busy-can_receive}
use driver_workflow.E1000e.Rx.Fresh.{Fresh}
use driver_workflow.E1000e.Driver.{
  Device, init, init_mac, start_tx, start_rx, eerd_read, read_mac_from_eerd, fallback_mac, receive,
  can_receive, is_supported,
}
use driver_workflow.E1000e.Driver.Receive.{Receives, Taken, receive_again, init-ready}
use driver_workflow.E1000e.Driver.Eerd.{
  Stuck, eerd_read_stuck, init_mac_stuck, read_mac_from_eerd-eq,
}

supported : is_supported 0x8086 0x10d3 ≡ true
unfolding is_supported
supported = refl

device : Device
device = record {
  tx_ring = record {
    desc_dma = map_frames (record { first = 0; pages = 1 });
    buffers = replicate 256 none;
    next_to_use = 0;
    next_to_clean = 0;
    count = 256;
    txd_cmd = 11;
  };
  rx_ring = busy;
  mac_addr = fallback_mac;
  world = [];
  pool = 5;
  heap = 2;
}

device-Receives : Receives device 256 255
unfolding device
device-Receives = record { holding = busy-Holding; tail_in = omega arith; waits = busy-waits }

device-can_receive : can_receive device ≡ true
unfolding device
device-can_receive = busy-can_receive

receive_again_example :
    ((n' : ℕ) × (m' : ℕ) × (n' < rx_desc_count) × Receives (receive device).1 n' m')
    × Taken device (receive device)
receive_again_example = receive_again device 256 255 device-Receives (inr device-can_receive)

-- In the log of writes, every register reads 0, so that the device is never done.
silent : Stuck
unfolding has
silent = record { Is = λ w. Unit; after_write = λ w v s. s; never_done = λ w s. (refl, s) }

eerd_read_stuck_example : (eerd_read [] 2).0 ≡ none
unfolding silent
eerd_read_stuck_example = eerd_read_stuck silent [] 2 tt

init_mac_stuck_example :
    ((eerd_read [] 0).0 ≡ none)
    × (read_mac_from_eerd [] ≡ (none, (eerd_read [] 0).1))
    × (init_mac [] ≡ (fallback_mac, (eerd_read [] 0).1))
unfolding silent
init_mac_stuck_example = init_mac_stuck silent [] tt

read_mac_from_eerd-eq_example : read_mac_from_eerd [] ≡ E1000.Eeprom.read_mac_addr_from_eeprom []
read_mac_from_eerd-eq_example = read_mac_from_eerd-eq []

or_device : Option Device → Device
or_device none = device
or_device (some e) = e

brought_up : Device
unfolding or_device
brought_up = or_device (init [] 300 0)

brought_up-init : init [] 300 0 ≡ some brought_up
unfolding brought_up init start_tx start_rx Tx.new_ring Tx.alloc_ring Tx.map_ring alloc_rx_ring
    fill_ring fill_from fill_slot empty_ring
brought_up-init = refl

init-ready_example :
    E1000.Tx.Inv.IsValid (legacy brought_up.tx_ring)
    × (E1000.Tx.Inv.in_flight (legacy brought_up.tx_ring) ≡ [])
    × Fresh brought_up.rx_ring.ring
    × Receives brought_up rx_desc_count 255
init-ready_example = init-ready [] 300 0 brought_up brought_up-init
