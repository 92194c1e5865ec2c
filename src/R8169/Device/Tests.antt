-- ===== src/R8169/Device/Tests.antt =====
-- The device on concrete inputs, and the theorems about it at such inputs.
use driver_workflow.Prelude.{
  ℕ, zero, suc, ◌+◌, ◌%◌, ◌<◌, ◌≡◌, ◌⊎◌, refl, sym, ◌∙◌, true, false, Option, none, some, [], ◌∷◌,
  arith, replicate, length-replicate,
}
use mathlib.Core.Bool.{false≢true}
use driver_workflow.Sample.{byte_memory, register_log, counted_pool, map_frames}
use driver_workflow.Bits.{has}
use driver_workflow.Frames.{run, calls}
use driver_workflow.Bytes.{to_le_bytes, from_le_bytes}
use driver_workflow.R8169.Regs.{num_rx_desc, num_tx_desc}
use driver_workflow.R8169.Desc.{
  is_fragmented_frame, RawDesc, new, write_desc, desc_bytes, read_opts1, write_opts1, set_ring_end,
}
use driver_workflow.R8169.Desc.Entries.{entry, IsDesc}
use driver_workflow.R8169.Desc.Entries.Access.{write_desc_lem}
use driver_workflow.R8169.Tx
use driver_workflow.R8169.Tx.Inv
use driver_workflow.R8169.Rx.{set_rx_desc_addr}
use driver_workflow.R8169.Device.{
  Device, init, with_rings, start_filled, start, fill_from, receive, is_supported, checked_mac,
  fallback_mac, alloc_rx_slot, fill_slot, place, free_processed_tx_buffers,
}
use driver_workflow.R8169.Device.Armed.{owned, Armed, IsValid, alloc_rx_slot-Fills}
use driver_workflow.R8169.Device.Receive.{slot_of, Takes, receive-cases}
use driver_workflow.R8169.Device.Start.{Ready, init-Ready, receive_stalls}
use driver_workflow.R8169.Device.Burst.{outcome, calls-receive-outcomes}
use driver_workflow.R8169.Device.Life.{fills-IsValid, Alive, here, next, receives, life-Alive}

supported : is_supported 0x10ec 0x8168 ≡ true
unfolding is_supported
supported = refl

fallback : checked_mac (0xff ∷ 0xff ∷ 0xff ∷ 0xff ∷ 0xff ∷ 0xff ∷ []) ≡ fallback_mac
unfolding checked_mac
fallback = refl

-- A device whose hardware owns no receive descriptor, with one buffer in the pool; and the same
-- with that buffer in slot 1.
abbrev bare : Device
bare = record {
  world = [];
  tx_ring = record {
    ring = record { dma = map_frames (record { first = 0; pages = 1 }); count = 256 };
    slots = [];
    cur_tx = 0;
    dirty_tx = 0;
  };
  rx_desc_ring = record { dma = map_frames (record { first = 1; pages = 1 }); count = 256 };
  rx_buffers = replicate 256 none;
  rx_cur = 0;
  mac_addr = fallback_mac;
  pool = 1;
  heap = 2;
}

bare-owned : (i : ℕ) → owned bare i ≡ false
unfolding entry from_le_bytes has
bare-owned i = refl

bare-IsValid : IsValid bare
bare-IsValid = record {
  shape = record { counted = refl; fits = omega arith };
  slots = length-replicate {A = Option (ℕ × ℕ)} 256 none;
  armed = λ i h own. absurd (false≢true (sym (bare-owned i) ∙ own));
}

dry : Device
dry = (alloc_rx_slot bare 1).1

dry-IsValid : IsValid dry
unfolding dry
dry-IsValid = (alloc_rx_slot-Fills bare 1 bare-IsValid (omega arith)).valid

receive-cases_example :
    ((owned dry (slot_of dry) ≡ true) × (receive dry ≡ (none, dry)))
    ⊎ ((owned dry (slot_of dry) ≡ false) × Takes dry (receive dry))
receive-cases_example = receive-cases dry dry-IsValid

dry-free : owned dry (slot_of dry) ≡ false
unfolding dry alloc_rx_slot fill_slot place write_desc desc_bytes to_le_bytes entry from_le_bytes
    has
dry-free = refl

dry-next : owned dry ((dry.rx_cur + 1) % num_rx_desc) ≡ true
unfolding dry alloc_rx_slot fill_slot place write_desc desc_bytes to_le_bytes entry from_le_bytes
    has
dry-next = refl

dry-empty : (counted_pool.take_buffer dry.pool).0 ≡ none
unfolding dry alloc_rx_slot fill_slot place write_desc
dry-empty = refl

receive_stalls_example :
    ((receive dry).1.rx_desc_ring ≡ dry.rx_desc_ring)
    × (receive (record (receive dry).1 { pool = 5 }) ≡ (none, record (receive dry).1 { pool = 5 }))
receive_stalls_example = receive_stalls dry 5 dry-IsValid dry-free dry-empty dry-next

or_bare : Option Device → Device
or_bare none = bare
or_bare (some e) = e

brought_up : Device
unfolding or_bare
brought_up = or_bare (init [] 300 0)

brought_up-init : init [] 300 0 ≡ some brought_up
unfolding brought_up init with_rings start_filled start fill_from alloc_rx_slot fill_slot place
    write_desc Tx.new_ring new set_ring_end read_opts1 write_opts1 Tx.set_tx_desc_addr
    set_rx_desc_addr
brought_up-init = refl

init-Ready_example : Ready brought_up
init-Ready_example = init-Ready [] 300 0 brought_up brought_up-init

life-Alive_example :
    Alive (receive brought_up).1
    × ((i : ℕ)
        → i < num_tx_desc
        → Inv.owned (receive brought_up).1.tx_ring.ring i ≡ true
        → Inv.Holds (receive brought_up).1.tx_ring i)
    × ((i : ℕ)
        → i < num_rx_desc
        → owned (receive brought_up).1 i ≡ true
        → Armed (receive brought_up).1 i)
    × ((g : Device) × (free_processed_tx_buffers (receive brought_up).1 ≡ some g))
life-Alive_example =
    life-Alive [] 300 0 brought_up (receive brought_up).1 brought_up-init
      (next here (receives refl))

-- A device of which the hardware has written a frame of 60 octets to slot 0.
armed : Device
armed = (alloc_rx_slot bare 0).1

armed-IsValid : IsValid armed
unfolding armed
armed-IsValid = (alloc_rx_slot-Fills bare 0 bare-IsValid (omega arith)).valid

abbrev frame_desc : RawDesc
frame_desc = record { opts1 = 0x3000_0040; opts2 = 0; addr_lo = 0; addr_hi = 0 }

frame_desc-IsDesc : IsDesc frame_desc
frame_desc-IsDesc = record {
  opts1_fits = omega arith;
  opts2_fits = omega arith;
  addr_lo_fits = omega arith;
  addr_hi_fits = omega arith;
}

written : Device
written = record armed { rx_desc_ring = (write_desc armed.rx_desc_ring 0 frame_desc).1 }

written-IsValid : IsValid written
unfolding written has
written-IsValid =
    let (_, u) =
      write_desc_lem num_rx_desc armed.rx_desc_ring 0 frame_desc armed-IsValid.shape (omega arith)
        frame_desc-IsDesc in
    fills-IsValid armed 0 frame_desc (write_desc armed.rx_desc_ring 0 frame_desc).1 armed-IsValid u
      refl

written-back : (j : ℕ) → j < 3 → owned written ((slot_of written + j) % num_rx_desc) ≡ false
unfolding written armed alloc_rx_slot fill_slot place write_desc desc_bytes to_le_bytes entry
    from_le_bytes has
written-back zero h = refl
written-back (suc zero) h = refl
written-back (suc (suc zero)) h = refl
written-back (suc (suc (suc j))) h = absurd (omega arith)

written_outcomes : run (outcome written) 3 0 ≡ some (2048, 60) ∷ none ∷ none ∷ []
unfolding written armed alloc_rx_slot fill_slot place write_desc desc_bytes to_le_bytes entry
    from_le_bytes has is_fragmented_frame
written_outcomes = refl

calls-receive-outcomes_example :
    ((calls receive 3 written).0 ≡ run (outcome written) 3 (slot_of written))
    × (slot_of (calls receive 3 written).1 ≡ (slot_of written + 3) % num_rx_desc)
    × IsValid (calls receive 3 written).1
calls-receive-outcomes_example =
    calls-receive-outcomes 3 written (omega arith) written-IsValid written-back
