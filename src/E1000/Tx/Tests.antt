-- ===== src/E1000/Tx/Tests.antt =====
-- The transmit ring on concrete inputs, and the theorems about it at such inputs.
use driver_workflow.Prelude.{ℕ, ◌+◌, ◌≡◌, refl, none, some, List, [], ◌∷◌, arith, replicate}
use driver_workflow.Sample.{byte_memory, write_log, map_frames}
use driver_workflow.E1000.Regs.{tdt}
use driver_workflow.E1000.Desc.{DescRing, new, is_full, unused_count, advance_use, E1000TxDesc}
use driver_workflow.E1000.Desc.Index.{in_use, unused_count-in_use}
use driver_workflow.E1000.Tx.{
  TxRing, new_ring, alloc_ring, map_ring, xmit_frame, queue_packet, packet_buffer, fill_buffer,
  map_buffer, clean_tx_irq, tx_desc_count,
}
use driver_workflow.E1000.Tx.Inv.{IsValid}
use driver_workflow.E1000.Tx.Xmit.{Outcome, xmit_frame_cases}
use driver_workflow.E1000.Tx.Clean.{Cleans, clean_tx_irq-Cleans, new_tx_ring-IsValid}

first_ring : TxRing
first_ring = record {
  desc_dma = map_frames (record { first = 0; pages = 1 });
  ring = new tx_desc_count;
  buffers = replicate tx_desc_count none;
  txd_cmd = 11;
}

first_ring-new : (new_ring 0).0 ≡ some first_ring
unfolding new_ring alloc_ring map_ring first_ring
first_ring-new = refl

first_ring-IsValid : IsValid first_ring
first_ring-IsValid = (new_tx_ring-IsValid 0 first_ring first_ring-new).0

abbrev frame : List ℕ
frame = 7 ∷ 8 ∷ 9 ∷ []

xmit_frame_cases_example : Outcome first_ring [] 1 frame (xmit_frame first_ring [] 1 frame)
xmit_frame_cases_example = xmit_frame_cases first_ring [] 1 frame first_ring-IsValid

frame_goes : (xmit_frame first_ring [] 1 frame).world ≡ (tdt, 1) ∷ []
unfolding xmit_frame queue_packet packet_buffer map_buffer fill_buffer is_full unused_count
    advance_use first_ring
frame_goes = refl

clean_tx_irq-Cleans_example :
    (out : ℕ × TxRing) × (clean_tx_irq first_ring ≡ some out) × Cleans first_ring 0 out
clean_tx_irq-Cleans_example = clean_tx_irq-Cleans first_ring first_ring-IsValid

abbrev wrapped : DescRing
wrapped = record { count = 256; next_to_use = 3; next_to_clean = 250 }

unused_count-in_use_example : unused_count wrapped + in_use wrapped + 1 ≡ 256
unused_count-in_use_example =
    unused_count-in_use wrapped (record { use_in = omega arith; clean_in = omega arith })

abbrev sent_desc : E1000TxDesc
sent_desc = record { buffer_addr = 0x1_2345_6000; lower = 0x0b00_003c; upper = 1 }
