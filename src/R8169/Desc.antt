-- ===== src/R8169/Desc.antt =====
-- kernel/comps/r8169/src/desc.rs: descriptors, the descriptor ring in DMA memory, and the slots.
-- A `Result` is an `Option`, or a flag (`true` for `Ok(())`) where memory is written too.
pub mod Entries
use driver_workflow.Prelude.{
  ℕ, ◌+◌, ◌-◌, ◌*◌, ◌/◌, ◌%◌, ◌^◌, bit_and, bit_or, Bool, true, false, not, ◌&&◌, Option, none,
  some, List, ◌++◌, ◌==◌, if◌then◌else◌, replicate, slice,
}
use driver_workflow.Bytes.{to_le_bytes, from_le_bytes}
use driver_workflow.Dma.{Dma}
use driver_workflow.R8169.Regs.{desc_own, ring_end, first_frag, last_frag, num_tx_desc, rx_buf_size}

abbrev pub desc_size : ℕ
desc_size = 16

pub record RawDesc : Type 0 where
  pub opts1 : ℕ
  pub opts2 : ℕ
  pub addr_lo : ℕ
  pub addr_hi : ℕ

pub record DescRing ⦃d : Dma⦄ : Type 0 where
  pub dma : d.Mem
  pub count : ℕ

module _ ⦃d : Dma⦄ where
  -- The end of `DescRing::new`: the region is mapped, zeroed and synced.
  zeroed_ring : ℕ → Option d.Mem → Option DescRing
  zeroed_ring count none = none
  zeroed_ring count (some m) =
      let m' = d.copy_in m 0 (replicate (count * desc_size) 0) in
      if d.is_open m && d.syncs m' 0 (count * desc_size)
      then some (record { dma = m'; count = count })
      else none

  map_ring : ℕ → Option d.Segment × d.Heap → Option DescRing × d.Heap
  unfolding zeroed_ring
  map_ring count (none, h) = (none, h)
  map_ring count (some s, h) = (zeroed_ring count (d.map_segment s), h)

  -- `DescRing::new`, with the allocator's state passed along.
  unfoldable pub new : d.Heap → ℕ → Option DescRing × d.Heap
  unfolding map_ring
  new h count = map_ring count (d.alloc_segment h ((count * desc_size + 4096 - 1) / 4096))

  unfoldable pub desc_bytes : RawDesc → List ℕ
  desc_bytes e =
      to_le_bytes 4 e.opts1
      ++ (to_le_bytes 4 e.opts2 ++ (to_le_bytes 4 e.addr_lo ++ to_le_bytes 4 e.addr_hi))

  -- The little-endian word in `bytes[a..a + 4]`.
  word_in : List ℕ → ℕ → ℕ
  word_in bytes a = from_le_bytes (slice a 4 bytes)

  bytes_desc : List ℕ → RawDesc
  unfolding word_in
  bytes_desc bytes = record {
    opts1 = word_in bytes 0;
    opts2 = word_in bytes 4;
    addr_lo = word_in bytes 8;
    addr_hi = word_in bytes 12;
  }

  -- `DescRing::write_desc`
  unfoldable pub write_desc : DescRing → ℕ → RawDesc → Bool × DescRing
  unfolding desc_bytes
  write_desc r i e =
      let o = i * desc_size in
      let m = d.copy_in r.dma o (desc_bytes e) in
      if d.is_open r.dma then (d.syncs m o (o + desc_size), record r { dma = m }) else (false, r)

  -- `DescRing::read_desc`
  unfoldable pub read_desc : DescRing → ℕ → Option RawDesc
  unfolding bytes_desc
  read_desc r i =
      let o = i * desc_size in
      if d.syncs r.dma o (o + desc_size) && d.is_open r.dma
      then some (bytes_desc (d.copy_out r.dma o desc_size))
      else none

  -- `DescRing::write_opts1`
  unfoldable pub write_opts1 : DescRing → ℕ → ℕ → Bool × DescRing
  write_opts1 r i v =
      let o = i * desc_size in
      let m = d.copy_in r.dma o (to_le_bytes 4 v) in
      if d.is_open r.dma then (d.syncs m o (o + 4), record r { dma = m }) else (false, r)

  -- `DescRing::read_opts1`
  unfoldable pub read_opts1 : DescRing → ℕ → Option ℕ
  read_opts1 r i =
      let o = i * desc_size in
      if d.syncs r.dma o (o + 4) && d.is_open r.dma
      then some (from_le_bytes (d.copy_out r.dma o 4))
      else none

  -- The writes of `mark_to_asic`, once `opts1` is read.
  rearm : DescRing → ℕ → Option ℕ → Bool × DescRing
  rearm r i none = (false, r)
  rearm r i (some opts1) =
      let m = d.copy_in r.dma (i * desc_size + 4) (to_le_bytes 4 0) in
      let new_opts1 = bit_or (bit_or desc_own (bit_and opts1 ring_end)) rx_buf_size in
      if d.is_open r.dma then write_opts1 (record r { dma = m }) i new_opts1 else (false, r)

  -- `mark_to_asic`
  unfoldable pub mark_to_asic : DescRing → ℕ → Bool × DescRing
  unfolding rearm
  mark_to_asic r i = rearm r i (read_opts1 r i)

  end_at : DescRing → ℕ → Option ℕ → Bool × DescRing
  end_at r last none = (false, r)
  end_at r last (some opts1) = write_opts1 r last (bit_or opts1 ring_end)

  -- `set_ring_end`
  unfoldable pub set_ring_end : DescRing → ℕ → Bool × DescRing
  unfolding end_at
  set_ring_end r count =
      if count == 0 then (true, r) else end_at r (count - 1) (read_opts1 r (count - 1))

-- `tx_slots_avail`, in `u32` arithmetic.
unfoldable pub tx_slots_avail : ℕ → ℕ → ℕ
tx_slots_avail dirty_tx cur_tx = ((dirty_tx + num_tx_desc) % 2 ^ 32 + 2 ^ 32 - cur_tx) % 2 ^ 32

-- `is_fragmented_frame`
unfoldable pub is_fragmented_frame : ℕ → Bool
is_fragmented_frame status =
    let both = bit_or first_frag last_frag in not (bit_and status both == both)

-- `TxSlot`
pub record TxSlot ⦃d : Dma⦄ : Type 0 where
  pub len : ℕ
  pub is_last : Bool
  pub dma_buf : Option d.Mem

-- `TxSlot::new`, also what `TxSlot::clear` leaves.
abbrev pub empty_slot : ⦃d : Dma⦄ → TxSlot
empty_slot = record { len = 0; is_last = false; dma_buf = none }
