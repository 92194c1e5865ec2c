-- ===== src/E1000e/Rx/Tests.antt =====
-- The receive ring on concrete inputs, and the theorems about it at such inputs.
use driver_workflow.Prelude.{
  ℕ, ◌≡◌, inr, refl, Option, none, some, [], ◌∷◌, arith, length-replicate, get_or-replicate,
}
use driver_workflow.Sample.{byte_memory, write_log, counted_pool}
use driver_workflow.Bits.{has}
use driver_workflow.Bytes.{from_le_bytes}
use driver_workflow.E1000e.Desc.{
  DescRing, is_done, read_desc, rx_desc_of, alloc_rx_ring, fill_ring, fill_from, fill_slot,
  empty_ring,
}
use driver_workflow.E1000e.Rx.{
  clean_rx_irq, clean_from, take_done, handle, replenish, alloc_all_rx_buffers, can_receive,
}
use driver_workflow.E1000e.Rx.Sample.{
  full_ring, zeroed_frames, quiet, busy, busy-Holding, busy-waits, busy-can_receive,
}
use driver_workflow.E1000e.Rx.Deliver.{Delivers, clean_rx_irq-Delivers}
use driver_workflow.E1000e.Rx.Fresh.{
  Fresh, Overwrites, alloc_rx_ring-Fresh, clean_rx_irq-Overwrites,
}

clean_rx_irq-Delivers_example : Delivers busy 1 256 (clean_rx_irq busy [] 5 1)
unfolding can_receive
clean_rx_irq-Delivers_example =
    clean_rx_irq-Delivers busy [] 5 1 256 255 busy-Holding (omega arith) busy-waits
      (inr (omega arith, omega arith, busy-can_receive))

delivered : (clean_rx_irq busy [] 5 1).packets ≡ (0x8000, 60) ∷ []
unfolding clean_rx_irq clean_from take_done handle replenish alloc_all_rx_buffers is_done read_desc
    rx_desc_of has from_le_bytes
delivered = refl

quiet-Fresh : Fresh quiet.ring
unfolding is_done read_desc rx_desc_of has from_le_bytes
quiet-Fresh = record {
  shape = record {
    counted = refl;
    sized = refl;
    fits = omega arith;
    slots = length-replicate {A = Option (ℕ × ℕ)} 256 (some (0x8000, 0));
  };
  use_eq = refl;
  clean_eq = refl;
  filled = λ j h. ((0x8000, 0), get_or-replicate 256 (some (0x8000, 0)) j none h, refl);
}

clean_rx_irq-Overwrites_example :
    ((clean_rx_irq quiet [] 5 1).packets ≡ [])
    × Overwrites quiet.ring (clean_rx_irq quiet [] 5 1).rx.ring 5
clean_rx_irq-Overwrites_example = clean_rx_irq-Overwrites quiet [] 5 1 quiet-Fresh

some_or : Option (DescRing (ℕ × ℕ)) → DescRing (ℕ × ℕ)
some_or none = full_ring zeroed_frames
some_or (some q) = q

new_ring : DescRing (ℕ × ℕ)
unfolding some_or
new_ring = some_or (alloc_rx_ring 256 0 300).0.0

new_ring-some : (alloc_rx_ring 256 0 300).0.0 ≡ some new_ring
unfolding new_ring alloc_rx_ring fill_ring fill_from fill_slot empty_ring
new_ring-some = refl

alloc_rx_ring-Fresh_example : Fresh new_ring
alloc_rx_ring-Fresh_example = alloc_rx_ring-Fresh 0 300 new_ring new_ring-some
