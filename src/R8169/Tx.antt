-- ===== src/R8169/Tx.antt =====
-- kernel/comps/r8169/src/tx.rs: the transmit ring, `start_xmit` and `rtl_tx`.
pub mod Inv
pub mod Frame
pub mod Xmit
pub mod Reap
pub mod Clear
pub mod Safety
mod Tests
use Prim.Native.Nat.{pred}
use driver_workflow.Prelude.{
  ℕ, zero, suc, ◌+◌, ◌-◌, ◌*◌, ◌/◌, ◌%◌, ◌^◌, bit_and, bit_or, Bool, true, false, not, ◌&&◌, Option,
  none, some, List, [], ◌∷◌, ◌++◌, ◌==◌, if◌then◌else◌, leb, replicate, length, get_or, set,
}
use driver_workflow.Bits.{has}
use driver_workflow.Dma.{Dma}
use driver_workflow.Mmio.{Mmio}
use driver_workflow.R8169.Regs.{
  desc_own, ring_end, first_frag, last_frag, num_tx_desc, tx_stop_thrs, tx_poll, npq,
  tx_desc_start_addr_high, tx_desc_start_addr_low, max_tx_packet_size, tx_packet_max,
}
use driver_workflow.R8169.Desc.{
  RawDesc, DescRing, TxSlot, empty_slot, new, write_desc, read_opts1, set_ring_end, tx_slots_avail,
}

-- `NetError` of aster_network.
pub data NetError : Type 0 where
  busy no_memory not_ready : NetError

abbrev pub eth_zlen : ℕ
eth_zlen = 60

-- `pad_packet`
unfoldable pub pad_packet : List ℕ → List ℕ
pad_packet bytes =
    if leb eth_zlen (length bytes) then bytes else bytes ++ replicate (eth_zlen - length bytes) 0

module _ ⦃d : Dma⦄ where
  pub record TxDmaBuf : Type 0 where
    pub stream : d.Mem
    pub len : ℕ

  pub record TxRing : Type 0 where
    pub ring : DescRing
    pub slots : List TxSlot
    pub cur_tx : ℕ
    pub dirty_tx : ℕ

  -- The end of `TxDmaBuf::new`: the payload is copied in and synced.
  fill_buf : List ℕ → Option d.Mem → Option TxDmaBuf
  fill_buf bytes none = none
  fill_buf bytes (some m) =
      let m' = d.copy_in m 0 bytes in
      if d.is_open m && d.syncs m' 0 (length bytes)
      then some (record { stream = m'; len = length bytes })
      else none

  map_buf : List ℕ → Option d.Segment × d.Heap → Option TxDmaBuf × d.Heap
  map_buf bytes (none, h) = (none, h)
  map_buf bytes (some s, h) = (fill_buf bytes (d.map_segment s), h)

  -- `TxDmaBuf::new`, with `TX_DMA_BUF_PAGES` = 1.
  unfoldable pub new_buf : d.Heap → List ℕ → Option TxDmaBuf × d.Heap
  unfolding map_buf fill_buf
  new_buf h bytes = map_buf bytes (d.alloc_segment h 1)

  ended_ring : Bool × DescRing → Option TxRing
  ended_ring (true, r) =
      some (record { ring = r; slots = replicate num_tx_desc empty_slot; cur_tx = 0; dirty_tx = 0 })
  ended_ring (false, r) = none

  end_ring : Option DescRing × d.Heap → Option TxRing × d.Heap
  end_ring (none, h) = (none, h)
  end_ring (some r, h) = (ended_ring (set_ring_end r num_tx_desc), h)

  -- `TxRing::new`
  unfoldable pub new_ring : d.Heap → Option TxRing × d.Heap
  unfolding end_ring ended_ring
  new_ring h = end_ring (new h num_tx_desc)

  -- `TxRing::slots_avail` and `TxRing::can_send`
  unfoldable pub slots_avail : TxRing → ℕ
  slots_avail t = tx_slots_avail t.dirty_tx t.cur_tx

  unfoldable pub can_send : TxRing → Bool
  unfolding slots_avail
  can_send t = leb tx_stop_thrs (slots_avail t)

  -- The descriptor that `TxRing::clear` and `unmap_tx_slot` leave at an index.
  abbrev pub blank : ℕ → RawDesc
  blank i = record {
    opts1 = if i == num_tx_desc - 1 then ring_end else 0;
    opts2 = 0;
    addr_lo = 0;
    addr_hi = 0;
  }

  -- `TxRing::unmap_tx_slot`; the result of `write_desc` is dropped.
  unfoldable pub unmap_tx_slot : TxRing → ℕ → TxRing
  unmap_tx_slot t i = record t {
    slots = set t.slots i empty_slot;
    ring = (write_desc t.ring i (blank i)).1;
  }

  -- The loop of `TxRing::clear`, with `n` rounds left from index `i` on.
  clear_from : ℕ → ℕ → TxRing → TxRing
  clear_from zero i t = t
  clear_from (suc n) i t = clear_from n (i + 1) (unmap_tx_slot t i)

  -- `TxRing::clear` and `tx_clear`
  unfoldable pub tx_clear : TxRing → TxRing
  unfolding clear_from
  tx_clear t = record (clear_from num_tx_desc 0 t) { cur_tx = 0; dirty_tx = 0 }

  -- The descriptor that `tx_map` writes.
  unfoldable pub mapped_desc : ℕ → ℕ → TxDmaBuf → ℕ → Bool → RawDesc
  mapped_desc opts0 opts1 buf i own =
      let len = buf.len % 2 ^ 32 in
      let base = bit_or opts0 len in
      let ended = if i == num_tx_desc - 1 then bit_or base ring_end else base in
      record {
        opts1 = if own then bit_or ended desc_own else ended;
        opts2 = opts1;
        addr_lo = d.daddr buf.stream % 2 ^ 32;
        addr_hi = d.daddr buf.stream / 2 ^ 32 % 2 ^ 32;
      }

  -- `tx_map`; on a failed write the slot is left alone.
  unfoldable pub tx_map : TxRing → ℕ → ℕ → TxDmaBuf → ℕ → Bool → Bool × TxRing
  tx_map t opts0 opts1 buf i own =
      let (okay, r) = write_desc t.ring i (mapped_desc opts0 opts1 buf i own) in
      let slot = get_or t.slots i empty_slot in
      if okay
      then (
        true,
        record t {
          ring = r;
          slots = set t.slots i (record slot { len = buf.len % 2 ^ 32; dma_buf = some buf.stream });
        },
      )
      else (false, record t { ring = r })

-- `tx_vlan_tag` and `tso_csum_v2`: no offload.
unfoldable pub tx_vlan_tag : List ℕ → ℕ
tx_vlan_tag packet = 0

unfoldable pub tso_csum_v2 : List ℕ → ℕ × ℕ
tso_csum_v2 packet = (0, 0)

-- `doorbell`
unfoldable pub doorbell : ⦃io : Mmio⦄ → io.World → Bool × io.World
doorbell ⦃io⦄ w = io.write w 1 tx_poll npq

-- `set_tx_desc_addr`: the second write is made only if the first succeeds.
unfoldable pub set_tx_desc_addr : ⦃io : Mmio⦄ → io.World → ℕ → Bool × io.World
set_tx_desc_addr ⦃io⦄ w dma_addr =
    let (okay, w') = io.write w 4 tx_desc_start_addr_high (dma_addr / 2 ^ 32 % 2 ^ 32) in
    let low = io.write w' 4 tx_desc_start_addr_low (bit_and dma_addr 0xffff_ffff % 2 ^ 32) in
    if okay then low else (false, w')

-- `set_tx_max_size`
unfoldable pub set_tx_max_size : ⦃io : Mmio⦄ → io.World → Bool × io.World
set_tx_max_size ⦃io⦄ w = io.write w 1 max_tx_packet_size tx_packet_max

-- What a call of `start_xmit` leaves: its result (`none` for `Ok(())`), the ring, the device and
-- the allocator.
pub record Sent ⦃d : Dma⦄ ⦃io : Mmio⦄ : Type 0 where
  pub error : Option NetError
  pub tx : TxRing
  pub world : io.World
  pub heap : d.Heap

module _ ⦃d : Dma⦄ ⦃io : Mmio⦄ where
  -- `start_xmit` once the descriptor is mapped.
  finish_xmit : TxDmaBuf → ℕ → io.World → d.Heap → Bool × TxRing → Sent
  finish_xmit buf i w h (false, t) = record { error = some no_memory; tx = t; world = w; heap = h }
  finish_xmit buf i w h (true, t) =
      let slot = get_or t.slots i empty_slot in
      record {
        error = none;
        tx = record t {
          slots = set t.slots i (record slot { is_last = true; dma_buf = some buf.stream });
          cur_tx = (t.cur_tx + 1) % 2 ^ 32;
        };
        world = (doorbell w).1;
        heap = h;
      }

  -- `start_xmit` once the buffer is allocated.
  xmit_buf : TxRing → io.World → List ℕ → Option TxDmaBuf × d.Heap → Sent
  xmit_buf t w packet (none, h) = record { error = some no_memory; tx = t; world = w; heap = h }
  xmit_buf t w packet (some buf, h) =
      let i = t.cur_tx % num_tx_desc in
      let opts = tso_csum_v2 packet in
      let opts1 = bit_or opts.1 (tx_vlan_tag packet) in
      let opts0 = bit_or opts.0 (bit_or first_frag last_frag) in
      finish_xmit buf i w h (tx_map t opts0 opts1 buf i true)

  -- `start_xmit`
  unfoldable pub start_xmit : TxRing → io.World → d.Heap → List ℕ → Sent
  unfolding xmit_buf finish_xmit
  start_xmit t w h packet =
      if can_send t
      then xmit_buf t w packet (new_buf h (pad_packet packet))
      else record { error = some busy; tx = t; world = w; heap = h }

  -- `tx_kick_if_pending`
  unfoldable pub tx_kick_if_pending : TxRing → io.World → io.World
  tx_kick_if_pending t w = if t.cur_tx == t.dirty_tx then w else (doorbell w).1

-- `TxCompleteStats`
pub record TxCompleteStats : Type 0 where
  pub tx_packets : ℕ
  pub tx_bytes : ℕ

module _ ⦃d : Dma⦄ where
  -- What one completed slot adds to the statistics.
  unfoldable pub count_slot : TxSlot → TxCompleteStats → TxCompleteStats
  count_slot slot s =
      if slot.is_last
      then record { tx_packets = s.tx_packets + 1; tx_bytes = s.tx_bytes + slot.len }
      else s

  -- The loop of `rtl_tx` on fuel, over its local `dirty_tx`; `none` when the fuel runs out.
  unfoldable pub reap_from : ℕ → TxRing → ℕ → TxCompleteStats → Option (TxRing × TxCompleteStats)
  reap_from zero t dirty s = none
  reap_from (suc fuel) t dirty s =
      let i = dirty % num_tx_desc in
      let stop = some (record t { dirty_tx = dirty }, s) in
      let s' = count_slot (get_or t.slots i empty_slot) s in
      let rest = reap_from fuel (unmap_tx_slot t i) ((dirty + 1) % 2 ^ 32) s' in
      if t.cur_tx == dirty then stop else elim (read_opts1 t.ring i) [
        | none ↦ stop
        | some status ↦ if has status desc_own then stop else rest
      ]

  -- `rtl_tx`
  unfoldable pub rtl_tx : TxRing → Option (TxRing × TxCompleteStats)
  rtl_tx t = reap_from (suc num_tx_desc) t t.dirty_tx (record { tx_packets = 0; tx_bytes = 0 })
