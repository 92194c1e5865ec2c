-- ===== src/E1000/Rx/Tests.antt =====
-- The receive ring on concrete inputs, and the theorems about it at such inputs.
use mathlib.Core.Option.{none-ne-some}
use driver_workflow.Prelude.{
  ℕ, zero, suc, ◌≢◌, sym, ap, ◌∙◌, Option, List, get_or, replicate, ◌≡◌, refl, true, false, none,
  some, [], ◌∷◌, arith,
}
use driver_workflow.Sample.{byte_memory, write_log, counted_pool}
use driver_workflow.Bytes.{to_le_bytes, from_le_bytes}
use driver_workflow.Bits.{has}
use driver_workflow.E1000.Regs.{rdt}
use driver_workflow.E1000.Desc.{
  advance_clean, new, rx_done, has_error, rx_desc_to_bytes, bytes_to_rx_desc,
}
use driver_workflow.E1000.Desc.Stored.{bytes_to_rx_desc-rx_desc_to_bytes}
use driver_workflow.E1000.Rx.Sample.{
  done_desc, received, received-IsValid, two_received, two_received-IsValid,
}
use driver_workflow.E1000.Rx.{
  RxRing, rx_desc_count, read_desc, write_desc, clean_rx_irq, recycle_buffer, deliver,
  alloc_single_buffer, put_buffer,
}
use driver_workflow.E1000.Rx.Inv.{IsValid, buffer_at}
use driver_workflow.E1000.Rx.Clean.{Waits, Outcome, clean_rx_irq_cases}
use driver_workflow.E1000.Rx.Stall.{clean_rx_irq-stalls, clean_rx_irq-exposes}

delivered : (clean_rx_irq received [] 5).packet ≡ some (0x8000, 60)
unfolding clean_rx_irq received write_desc read_desc rx_desc_to_bytes bytes_to_rx_desc to_le_bytes
    from_le_bytes rx_done has_error has recycle_buffer deliver alloc_single_buffer put_buffer
delivered = refl

clean_rx_irq_cases_example : Outcome received [] 5 (clean_rx_irq received [] 5)
clean_rx_irq_cases_example = clean_rx_irq_cases received [] 5 received-IsValid

-- The ring after a frame was received with an empty pool, once the index has come round.
come_round : RxRing
come_round = record (clean_rx_irq received [] 0).rx { ring = new rx_desc_count }

received-done : rx_done (read_desc received.desc_dma 0) ≡ true
unfolding received write_desc read_desc rx_desc_to_bytes bytes_to_rx_desc to_le_bytes from_le_bytes
    rx_done has
received-done = refl

received-good : has_error (read_desc received.desc_dma 0) ≡ false
unfolding received write_desc read_desc rx_desc_to_bytes bytes_to_rx_desc to_le_bytes from_le_bytes
    has_error has
received-good = refl

come_round-IsValid : IsValid come_round
unfolding come_round received clean_rx_irq write_desc read_desc rx_desc_to_bytes bytes_to_rx_desc
    to_le_bytes from_le_bytes rx_done has_error has recycle_buffer deliver alloc_single_buffer
    put_buffer
come_round-IsValid = record {
  fits = omega arith;
  counted = refl;
  in_ring = record { use_in = omega arith; clean_in = omega arith };
  buffers_count = refl;
}

clean_rx_irq-stalls_example :
    (buffer_at (clean_rx_irq received [] 0).rx 0 ≡ none)
    × (rx_done (read_desc (clean_rx_irq received [] 0).rx.desc_dma 0) ≡ true)
    × (has_error (read_desc (clean_rx_irq received [] 0).rx.desc_dma 0) ≡ false)
    × Waits come_round [] 9 (clean_rx_irq come_round [] 9)
unfolding come_round received
clean_rx_irq-stalls_example =
    clean_rx_irq-stalls received come_round [] [] 0 9 received-IsValid received-done received-good
      refl come_round-IsValid refl refl refl

one_left : RxRing
one_left = (clean_rx_irq two_received [] 0).rx

one_left-IsValid : IsValid one_left
unfolding one_left two_received received clean_rx_irq write_desc read_desc rx_desc_to_bytes
    bytes_to_rx_desc to_le_bytes from_le_bytes rx_done has_error has recycle_buffer deliver
    alloc_single_buffer put_buffer advance_clean
one_left-IsValid = record {
  fits = omega arith;
  counted = refl;
  in_ring = record { use_in = omega arith; clean_in = omega arith };
  buffers_count = refl;
}

base_of : Option (ℕ × ℕ) → ℕ
base_of none = 0
base_of (some b) = b.0

blank_at : (n j : ℕ) → get_or (replicate {A = Option (ℕ × ℕ)} n none) j none ≡ none
blank_at zero j = refl
blank_at (suc n) zero = refl
blank_at (suc n) (suc j) = blank_at n j

one_left-buffers : one_left.buffers ≡ none ∷ some (0x9000, 0) ∷ replicate 254 none
unfolding one_left two_received received clean_rx_irq write_desc read_desc rx_desc_to_bytes
    bytes_to_rx_desc to_le_bytes from_le_bytes rx_done has_error has recycle_buffer deliver
    alloc_single_buffer put_buffer advance_clean
one_left-buffers = refl

slot_apart :
    (j : ℕ)
    → j ≢ 0
    → get_or (none ∷ some (0x9000, 0) ∷ replicate {A = Option (ℕ × ℕ)} 254 none) j none
      ≢ some (0x8000, 0)
unfolding base_of
slot_apart zero ne e = ne refl
slot_apart (suc zero) ne e = let x : ◌≡◌ {A = ℕ} 0x9000 0x8000 = ap base_of e in omega arith
slot_apart (suc (suc j)) ne e = none-ne-some (0x8000, 0) (sym (blank_at 254 j) ∙ e)

-- The second slot alone holds a buffer.
one_left-apart : (j : ℕ) → j ≢ 0 → buffer_at one_left j ≢ some (0x8000, 0)
one_left-apart j ne e =
    slot_apart j ne
      (ap (λ (bs : List (Option (ℕ × ℕ))). get_or bs j none) (sym one_left-buffers) ∙ e)

-- The pool gives another buffer.
one_left-given : (counted_pool.take_buffer 9).0 ≢ some (0x8000, 0)
unfolding base_of
one_left-given e = let x : ◌≡◌ {A = ℕ} 18432 0x8000 = ap base_of e in omega arith

clean_rx_irq-exposes_example :
    ((clean_rx_irq two_received [] 0).packet ≡ some (0x8000, 60))
    × ((clean_rx_irq one_left [] 9).world ≡ (rdt, 1) ∷ [])
    × ((read_desc (clean_rx_irq one_left [] 9).rx.desc_dma 0).buffer_addr ≡ 0x8000)
    × ((j : ℕ) → buffer_at (clean_rx_irq one_left [] 9).rx j ≢ some (0x8000, 0))
unfolding one_left two_received received clean_rx_irq write_desc read_desc rx_desc_to_bytes
    bytes_to_rx_desc to_le_bytes from_le_bytes rx_done has_error has recycle_buffer deliver
    alloc_single_buffer put_buffer advance_clean
clean_rx_irq-exposes_example =
    clean_rx_irq-exposes two_received one_left [] [] 0 9 (0x8000, 0) (0x9000, 0)
      two_received-IsValid refl refl refl refl refl one_left-IsValid refl refl refl refl refl refl
      one_left-apart one_left-given

bytes_to_rx_desc-rx_desc_to_bytes_example :
    bytes_to_rx_desc (rx_desc_to_bytes done_desc) ≡ done_desc
bytes_to_rx_desc-rx_desc_to_bytes_example = bytes_to_rx_desc-rx_desc_to_bytes done_desc (record {
  addr_fits = omega arith;
  length_fits = omega arith;
  csum_fits = omega arith;
  special_fits = omega arith;
})
