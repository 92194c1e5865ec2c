-- ===== src/E1000e/Rx/Sample.antt =====
-- A receive ring on which the theorems are tried.
use driver_workflow.Prelude.{
  ℕ, ◌+◌, ◌%◌, ◌≡◌, refl, true, false, Option, none, some, List, [], ◌∷◌, ◌++◌, arith, replicate,
  length-replicate, get_or-replicate,
}
use driver_workflow.Sample.{byte_memory, write_log, counted_pool, map_frames, Bytes}
use driver_workflow.Dma.{Dma}
use driver_workflow.Bits.{has}
use driver_workflow.Bytes.{from_le_bytes}
use driver_workflow.E1000e.Desc.{DescRing, is_done, read_desc, rx_desc_of}
use driver_workflow.E1000e.Rx.{RxRing, new, can_receive}
use driver_workflow.E1000e.Rx.Held.{Holding}

-- A full ring in zeroed memory; and the same once the device has received a frame of 60 octets.
abbrev pub full_ring : Bytes → DescRing (ℕ × ℕ)
full_ring m = record {
  ring = m;
  buffers = replicate 256 (some (0x8000, 0));
  count = 256;
  desc_size = 16;
  next_to_use = 0;
  next_to_clean = 0;
}

abbrev pub zeroed_frames : Bytes
zeroed_frames = map_frames (record { first = 0; pages = 1 })

abbrev pub written : List ℕ
written = replicate 8 0 ++ (3 ∷ 0 ∷ 0 ∷ 0 ∷ 60 ∷ 0 ∷ 0 ∷ 0 ∷ [])

abbrev pub received_frames : Bytes
received_frames = Dma.copy_in byte_memory zeroed_frames 0 written

abbrev pub quiet : RxRing
quiet = new (full_ring zeroed_frames) true true true

abbrev pub busy : RxRing
busy = new (full_ring received_frames) true true true

pub busy-Holding : Holding busy.ring 0 256
busy-Holding = record {
  shape = record {
    counted = refl;
    sized = refl;
    fits = omega arith;
    slots = length-replicate {A = Option (ℕ × ℕ)} 256 (some (0x8000, 0));
  };
  index_in = omega arith;
  at_most = omega arith;
  use_eq = refl;
  held = λ j h.
      ((0x8000, 0), get_or-replicate 256 (some (0x8000, 0)) ((0 + j) % 256) none (omega arith));
}

pub busy-can_receive : can_receive busy ≡ true
unfolding can_receive is_done read_desc rx_desc_of has from_le_bytes
busy-can_receive = refl

pub busy-waits : is_done (read_desc busy.ring 255) ≡ false
unfolding is_done read_desc rx_desc_of has from_le_bytes
busy-waits = refl
