-- ===== src/E1000e/Tx/Tests.antt =====
-- The transmit ring on concrete inputs, and the theorems about it at such inputs.
use driver_workflow.Prelude.{ℕ, ◌≡◌, refl, none, some, List, [], ◌∷◌, arith, replicate}
use driver_workflow.Sample.{byte_memory, write_log, map_frames}
use driver_workflow.E1000
use driver_workflow.E1000e.Tx.{TxRing, new_ring, alloc_ring, map_ring, xmit_frame, clean_tx_irq}
use driver_workflow.E1000e.Tx.Legacy.{legacy, legacy_sent, xmit_frame-legacy}
use driver_workflow.E1000e.Tx.Correct.{xmit_frame-Outcome, clean_tx_irq_outcome, new_ring-IsValid}

first_ring : TxRing
first_ring = record {
  desc_dma = map_frames (record { first = 0; pages = 1 });
  buffers = replicate 256 none;
  next_to_use = 0;
  next_to_clean = 0;
  count = 256;
  txd_cmd = 11;
}

first_ring-new : (new_ring 0).0 ≡ some first_ring
unfolding new_ring alloc_ring map_ring first_ring
first_ring-new = refl

new_ring-IsValid_example :
    E1000.Tx.Inv.IsValid (legacy first_ring) × (E1000.Tx.Inv.in_flight (legacy first_ring) ≡ [])
new_ring-IsValid_example = new_ring-IsValid 0 first_ring first_ring-new

first_ring-IsValid : E1000.Tx.Inv.IsValid (legacy first_ring)
first_ring-IsValid = (new_ring-IsValid 0 first_ring first_ring-new).0

abbrev frame : List ℕ
frame = 7 ∷ 8 ∷ 9 ∷ []

xmit_frame-legacy_example :
    legacy_sent (xmit_frame first_ring [] 1 frame)
    ≡ E1000.Tx.xmit_frame (legacy first_ring) [] 1 frame
unfolding first_ring
xmit_frame-legacy_example = xmit_frame-legacy first_ring [] 1 frame (omega arith)

xmit_frame-Outcome_example :
    E1000.Tx.Xmit.Outcome
      (legacy first_ring)
      []
      1
      frame
      (legacy_sent (xmit_frame first_ring [] 1 frame))
xmit_frame-Outcome_example = xmit_frame-Outcome first_ring [] 1 frame first_ring-IsValid

clean_tx_irq_outcome_example :
    (r : TxRing) × (clean_tx_irq first_ring ≡ some r)
    × ((n : ℕ) × E1000.Tx.Clean.Cleans (legacy first_ring) 0 (n, legacy r))
clean_tx_irq_outcome_example = clean_tx_irq_outcome first_ring first_ring-IsValid
