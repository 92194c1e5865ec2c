-- ===== src/E1000e/Desc.antt =====
-- kernel/comps/e1000e/src/desc.rs: the extended receive descriptor and the descriptor ring with one
-- optional buffer for each slot. `unwrap` and `expect` on the ring's memory fail only out of its
-- bounds, where the code panics; on its own indices no `u16` operation overflows.
pub mod Ring
use driver_workflow.Prelude.{
  ℕ, zero, suc, ◌+◌, ◌-◌, ◌*◌, ◌/◌, ◌%◌, ◌^◌, Bool, Option, none, some, List, ◌++◌, if◌then◌else◌,
  ltb, leb, get_or, set, slice, replicate,
}
use driver_workflow.Bits.{has}
use driver_workflow.Bytes.{to_le_bytes, from_le_bytes}
use driver_workflow.Dma.{Dma}
use driver_workflow.Pool.{RxPool}
use driver_workflow.E1000e.Regs.{tx_desc_size, rx_desc_ext_size, rxdext_stat_dd}

-- `RxDescExt`, what the device writes back.
pub record RxDescExt : Type 0 where
  pub mrq : ℕ
  pub rss : ℕ
  pub status_error : ℕ
  pub length : ℕ
  pub vlan : ℕ

-- The 16 bytes of memory as an `RxDescExt`, by its `repr(C)`.
unfoldable pub rx_desc_of : List ℕ → RxDescExt
rx_desc_of bytes = record {
  mrq = from_le_bytes (slice 0 4 bytes);
  rss = from_le_bytes (slice 4 4 bytes);
  status_error = from_le_bytes (slice 8 4 bytes);
  length = from_le_bytes (slice 12 2 bytes);
  vlan = from_le_bytes (slice 14 2 bytes);
}

-- `RxDescRead`, what the driver writes, and its 16 bytes.
pub record RxDescRead : Type 0 where
  pub buffer_addr : ℕ
  pub reserved : ℕ

unfoldable pub rx_desc_read_bytes : RxDescRead → List ℕ
rx_desc_read_bytes e = to_le_bytes 8 e.buffer_addr ++ to_le_bytes 8 e.reserved

-- The test that the receive path makes of `RXDEXT_STAT_DD`.
unfoldable pub is_done : RxDescExt → Bool
is_done e = has e.status_error rxdext_stat_dd

module _ ⦃d : Dma⦄ where
  -- `DescRing<B>`
  pub record DescRing (B : Type 0) : Type 0 where
    pub ring : d.Mem
    pub buffers : List (Option B)
    pub count : ℕ
    pub desc_size : ℕ
    pub next_to_use : ℕ
    pub next_to_clean : ℕ

  module _ {B : Type 0} where
    -- `DescRing::ring_size_bytes`
    abbrev pub ring_size_bytes : DescRing B → ℕ
    ring_size_bytes q = q.count * q.desc_size % 2 ^ 32

    -- `DescRing::set_next_to_use` and `DescRing::set_next_to_clean`
    abbrev pub set_next_to_use : DescRing B → ℕ → DescRing B
    set_next_to_use q val = record q { next_to_use = val }

    abbrev pub set_next_to_clean : DescRing B → ℕ → DescRing B
    set_next_to_clean q val = record q { next_to_clean = val }

    -- `DescRing::advance_index`
    abbrev pub advance_index : DescRing B → ℕ → ℕ
    advance_index q i = if leb q.count (i + 1) then 0 else i + 1

    -- `DescRing::unused_count`
    abbrev pub unused_count : DescRing B → ℕ
    unused_count q =
        if ltb q.next_to_use q.next_to_clean
        then q.next_to_clean - q.next_to_use - 1
        else q.count + q.next_to_clean - q.next_to_use - 1

    -- `DescRing::read_desc`, at the type `RxDescExt`
    unfoldable pub read_desc : DescRing B → ℕ → RxDescExt
    read_desc q i = rx_desc_of (d.copy_out q.ring (i * q.desc_size) 16)

    -- `DescRing::take_buffer`: the buffer, and the ring without it.
    abbrev pub buffer : DescRing B → ℕ → Option B
    buffer q i = get_or q.buffers i none

    abbrev pub take_buffer : DescRing B → ℕ → Option B × DescRing B
    take_buffer q i = (buffer q i, record q { buffers = set q.buffers i none })

    -- `DescRing::put_buffer`
    abbrev pub put_buffer : DescRing B → ℕ → B → DescRing B
    put_buffer q i b = record q { buffers = set q.buffers i (some b) }

    -- The loop of `DescRing::reset`, with `n` descriptors left from index `i` on.
    unfoldable pub zero_from : ℕ → ℕ → DescRing B → DescRing B
    zero_from zero i q = q
    zero_from (suc n) i q =
        zero_from n (i + 1)
          (record q { ring = d.copy_in q.ring (i * q.desc_size) (replicate q.desc_size 0) })

    -- `DescRing::reset`
    unfoldable pub reset : DescRing B → DescRing B
    reset q = zero_from q.count 0 (record q { next_to_use = 0; next_to_clean = 0 })

  -- `pages_for_ring`
  abbrev pub pages_for_ring : ℕ → ℕ → ℕ
  pages_for_ring count desc_size = (count * desc_size + 4095) / 4096

  -- `alloc_tx_ring`
  unfoldable pub empty_ring : {B : Type 0} → ℕ → ℕ → Option d.Mem → Option (DescRing B)
  empty_ring count size none = none
  empty_ring count size (some m) = some (record {
    ring = m;
    buffers = replicate count none;
    count = count;
    desc_size = size;
    next_to_use = 0;
    next_to_clean = 0;
  })

  unfoldable pub alloc_tx_ring : {B : Type 0} → ℕ → d.Heap → Option (DescRing B) × d.Heap
  unfolding empty_ring
  alloc_tx_ring count h =
      let (m, h') = d.alloc_coherent h (pages_for_ring count tx_desc_size) in
      (empty_ring count tx_desc_size m, h')

module _ ⦃d : Dma⦄ ⦃p : RxPool⦄ where
  -- `DescRing::refill_desc`
  unfoldable pub refill_desc : d.Mem → ℕ → p.RxBuffer → d.Mem
  refill_desc m i b =
      d.copy_in m (i * rx_desc_ext_size)
        (rx_desc_read_bytes (record { buffer_addr = p.daddr b % 2 ^ 64; reserved = 0 }))

  -- One round of the loop of `alloc_rx_ring`; slots from `i` on are not pushed yet.
  unfoldable pub fill_slot :
      DescRing p.RxBuffer → ℕ → Option p.RxBuffer × p.Pool → Bool × DescRing p.RxBuffer × p.Pool
  fill_slot q i (none, pool) = (Bool.false, q, pool)
  fill_slot q i (some b, pool) =
      (Bool.true, record (put_buffer q i b) { ring = refill_desc q.ring i b }, pool)

  -- The loop of `alloc_rx_ring`, with `n` slots left from index `i` on.
  unfoldable pub fill_from :
      ℕ → ℕ → DescRing p.RxBuffer → p.Pool → Option (DescRing p.RxBuffer) × p.Pool
  fill_from zero i q pool = (some q, pool)
  fill_from (suc n) i q pool =
      let (okay, q', pool') = fill_slot q i (p.take_buffer pool) in
      let rest = fill_from n (i + 1) q' pool' in if okay then rest else (none, pool')

  unfoldable pub fill_ring :
      ℕ → p.Pool → Option (DescRing p.RxBuffer) → Option (DescRing p.RxBuffer) × p.Pool
  fill_ring count pool none = (none, pool)
  fill_ring count pool (some q) = fill_from count 0 q pool

  -- `alloc_rx_ring`
  unfoldable pub alloc_rx_ring :
      ℕ → d.Heap → p.Pool → (Option (DescRing p.RxBuffer) × p.Pool) × d.Heap
  unfolding fill_ring empty_ring
  alloc_rx_ring count h pool =
      let (m, h') = d.alloc_coherent h (pages_for_ring count rx_desc_ext_size) in
      (fill_ring count pool (empty_ring count rx_desc_ext_size m), h')
