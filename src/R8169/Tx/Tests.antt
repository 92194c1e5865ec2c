-- ===== src/R8169/Tx/Tests.antt =====
-- The transmit ring on concrete inputs, and the theorems about it at such inputs.
use driver_workflow.Prelude.{
  ℕ, ◌≡◌, ◌⊎◌, refl, true, none, some, List, [], ◌∷◌, arith, ◌+◌, ◌-◌, ◌%◌, ◌≤◌, ◌<◌, replicate,
  length, ◌++◌,
}
use driver_workflow.Bits.{has}
use driver_workflow.Bytes.{to_le_bytes, from_le_bytes}
use driver_workflow.Sample.{byte_memory, register_log, Bytes, map_frames}
use driver_workflow.R8169.Regs.{num_tx_desc, tx_poll, npq}
use driver_workflow.R8169.Desc.{
  DescRing, empty_slot, new, write_desc, set_ring_end, read_opts1, write_opts1, tx_slots_avail,
  desc_bytes,
}
use driver_workflow.R8169.Desc.Entries.{entry}
use driver_workflow.R8169.Tx.{
  TxRing, TxDmaBuf, TxCompleteStats, pad_packet, new_ring, new_buf, start_xmit, rtl_tx, can_send,
  slots_avail, doorbell, tx_map, mapped_desc, tso_csum_v2, busy, no_memory,
}
use driver_workflow.R8169.Tx.Inv.{IsValid, pending, owned, Holds}
use driver_workflow.R8169.Tx.Frame.{IsFilled, Describes}
use driver_workflow.R8169.Tx.Xmit.{Sends, start_xmit_cases, start_xmit-IsValid}
use driver_workflow.R8169.Tx.Reap.{Reaps, in_flight, rtl_tx-Reaps}
use driver_workflow.R8169.Tx.Clear.{new_ring-IsValid}
use driver_workflow.R8169.Tx.Safety.{start_xmit-appends, Reach, Step, owned-Holds}

-- A 2-byte frame is padded to 60 bytes.
pad_packet_short : length (pad_packet (7 ∷ 8 ∷ [])) ≡ 60
unfolding pad_packet
pad_packet_short = refl

zero_page : Bytes
zero_page = byte_memory.copy_in (map_frames (record { first = 0; pages = 1 })) 0 (replicate 4096 0)

zero_ring : DescRing
zero_ring = record { dma = zero_page; count = 256 }

first_ring : TxRing
unfolding zero_ring
first_ring = record {
  ring = (set_ring_end zero_ring num_tx_desc).1;
  slots = replicate num_tx_desc empty_slot;
  cur_tx = 0;
  dirty_tx = 0;
}

first_ring-new : (new_ring 0).0 ≡ some first_ring
unfolding new_ring new set_ring_end read_opts1 write_opts1 first_ring zero_ring zero_page
first_ring-new = refl

first_ring-IsValid : IsValid first_ring
first_ring-IsValid = (new_ring-IsValid 0 first_ring first_ring-new).0

abbrev frame : List ℕ
frame = 7 ∷ 8 ∷ []

frame_goes : (start_xmit first_ring [] 1 frame).error ≡ none
unfolding start_xmit new_buf can_send slots_avail tx_slots_avail tx_map mapped_desc write_desc
    pad_packet first_ring zero_ring zero_page set_ring_end read_opts1 write_opts1
frame_goes = refl

-- One frame in flight.
after_frame : TxRing
after_frame = (start_xmit first_ring [] 1 frame).tx

after_frame_rung : (start_xmit first_ring [] 1 frame).world ≡ (1, tx_poll, npq) ∷ []
unfolding start_xmit new_buf can_send slots_avail tx_slots_avail tx_map mapped_desc write_desc
    pad_packet first_ring zero_ring zero_page set_ring_end read_opts1 write_opts1 doorbell
after_frame_rung = refl

start_xmit_cases_example :
    let s = start_xmit first_ring [] 1 frame in
    ((s.error ≡ some busy)
      × (num_tx_desc < pending first_ring + 2)
      × (s.tx ≡ first_ring)
      × (s.world ≡ []))
    ⊎ (((s.error ≡ some no_memory)
          × (pending first_ring + 2 ≤ num_tx_desc)
          × ((new_buf 1 (pad_packet frame)).0 ≡ none)
          × (s.tx ≡ first_ring)
          × (s.world ≡ []))
        ⊎ ((s.error ≡ none) × Sends first_ring [] frame s))
start_xmit_cases_example = start_xmit_cases first_ring [] 1 frame first_ring-IsValid

after_frame-IsValid : IsValid after_frame
unfolding after_frame
after_frame-IsValid = start_xmit-IsValid first_ring [] 1 frame first_ring-IsValid

start_xmit-appends_example :
    (b : TxDmaBuf) × IsFilled (frame ++ replicate (60 - length frame) 0) b
    × Describes b
        (first_ring.cur_tx % num_tx_desc)
        (entry (start_xmit first_ring [] 1 frame).tx.ring (first_ring.cur_tx % num_tx_desc))
    × (in_flight (start_xmit first_ring [] 1 frame).tx
        ≡ in_flight first_ring
          ++ (record { len = b.len; is_last = true; dma_buf = some b.stream } ∷ []))
    × ((start_xmit first_ring [] 1 frame).world ≡ (1, tx_poll, npq) ∷ [])
start_xmit-appends_example = start_xmit-appends first_ring [] 1 frame first_ring-IsValid frame_goes

rtl_tx-Reaps_example :
    (out : TxRing × TxCompleteStats) × (rtl_tx after_frame ≡ some out)
    × Reaps after_frame (record { tx_packets = 0; tx_bytes = 0 }) out
rtl_tx-Reaps_example = rtl_tx-Reaps after_frame after_frame-IsValid

after_frame-owned : owned after_frame.ring 0 ≡ true
unfolding after_frame entry has tso_csum_v2 to_le_bytes from_le_bytes desc_bytes start_xmit new_buf
    can_send slots_avail tx_slots_avail tx_map mapped_desc write_desc pad_packet first_ring
    zero_ring zero_page set_ring_end read_opts1 write_opts1
after_frame-owned = refl

owned-Holds_example : Holds after_frame 0
unfolding after_frame
owned-Holds_example =
    owned-Holds 0 first_ring after_frame 0 first_ring-new
      (Reach.next Reach.here (Step.sends [] 1 frame refl)) (omega arith) after_frame-owned
