-- ===== src/E1000/Tx.antt =====
-- kernel/comps/e1000/src/tx.rs: the transmit ring. `writer()` and `reader()` of the ring's region
-- are unwrapped in the source and the results of its syncs dropped, so that a descriptor access is
-- a plain copy here.
pub mod Inv
pub mod Xmit
pub mod Clean
mod Tests
use driver_workflow.Prelude.{
  ℕ, zero, suc, ◌+◌, ◌*◌, ◌/◌, ◌%◌, ◌^◌, bit_or, Bool, true, false, Option, none, some, List, ◌==◌,
  if◌then◌else◌, leb, length, set, replicate, ◌⊎◌, inl, inr,
}
use driver_workflow.Dma.{Dma}
use driver_workflow.Mmio.{Registers}
use driver_workflow.E1000.Regs.{tdt, txd_cmd_eop, txd_cmd_ifcs, txd_cmd_rs}
use driver_workflow.E1000.Desc.{
  DescRing, E1000TxDesc, new, advance_use, advance_clean, unused_count, is_full, new_data, tx_done,
  tx_desc_bytes, bytes_tx_desc,
}

-- `TX_DESC_COUNT`
abbrev pub tx_desc_count : ℕ
tx_desc_count = 256

-- The messages of `Err(...)`.
pub data TxError : Type 0 where
  ring_full no_buffer no_mapping no_writer sync_failed : TxError

module _ ⦃d : Dma⦄ where
  pub record TxBufferInfo : Type 0 where
    pub dma_stream : d.Mem
    pub len : ℕ

  pub record TxRing : Type 0 where
    pub desc_dma : d.Mem
    pub ring : DescRing
    pub buffers : List (Option TxBufferInfo)
    pub txd_cmd : ℕ

  unfoldable pub map_ring : Option d.Mem → Option TxRing
  map_ring none = none
  map_ring (some m) = some (record {
    desc_dma = m;
    ring = new tx_desc_count;
    buffers = replicate tx_desc_count none;
    txd_cmd = bit_or (bit_or txd_cmd_eop txd_cmd_ifcs) txd_cmd_rs;
  })

  unfoldable pub alloc_ring : Option d.Segment × d.Heap → Option TxRing × d.Heap
  unfolding map_ring
  alloc_ring (none, h) = (none, h)
  alloc_ring (some s, h) = (map_ring (d.map_segment s), h)

  -- `TxRing::new`
  unfoldable pub new_ring : d.Heap → Option TxRing × d.Heap
  unfolding alloc_ring
  new_ring h = alloc_ring (d.alloc_segment h ((tx_desc_count * 16 + 4095) / 4096))

  -- `TxRing::can_send`
  unfoldable pub can_send : TxRing → Bool
  can_send t = leb 1 (unused_count t.ring)

  -- `TxRing::write_desc` and `TxRing::read_desc`
  unfoldable pub write_desc : d.Mem → ℕ → E1000TxDesc → d.Mem
  write_desc m i e = d.copy_in m (i * 16) (tx_desc_bytes e)

  unfoldable pub read_desc : d.Mem → ℕ → E1000TxDesc
  read_desc m i = bytes_tx_desc (d.copy_out m (i * 16) 16)

  -- The packet is copied into the mapped buffer and synced.
  unfoldable pub fill_buffer : List ℕ → d.Heap → Option d.Mem → (TxError ⊎ d.Mem) × d.Heap
  fill_buffer packet h none = (inl no_mapping, h)
  fill_buffer packet h (some m) =
      let m' = d.copy_in m 0 packet in
      if d.is_open m
      then (if d.syncs m' 0 (length packet) then (inr m', h) else (inl sync_failed, h))
      else (inl no_writer, h)

  unfoldable pub map_buffer : List ℕ → Option d.Segment × d.Heap → (TxError ⊎ d.Mem) × d.Heap
  map_buffer packet (none, h) = (inl no_buffer, h)
  map_buffer packet (some s, h) = fill_buffer packet h (d.map_segment s)

  -- The steps of `xmit_frame` that can fail: the buffer of a packet.
  unfoldable pub packet_buffer : List ℕ → d.Heap → (TxError ⊎ d.Mem) × d.Heap
  unfolding map_buffer fill_buffer
  packet_buffer packet h = map_buffer packet (d.alloc_segment h ((length packet + 4095) / 4096))

  -- The descriptor of a packet in a buffer.
  abbrev pub packet_desc : TxRing → List ℕ → d.Mem → E1000TxDesc
  packet_desc t packet m = new_data (d.daddr m % 2 ^ 64) (length packet % 2 ^ 16) t.txd_cmd

module _ ⦃d : Dma⦄ ⦃io : Registers⦄ where
  -- What a call of `xmit_frame` leaves; `none` is `Ok(())`.
  pub record Sent : Type 0 where
    pub error : Option TxError
    pub tx : TxRing
    pub world : io.World
    pub heap : d.Heap

  unfoldable pub queue_packet : TxRing → io.World → List ℕ → (TxError ⊎ d.Mem) × d.Heap → Sent
  queue_packet t w packet (inl e, h) = record { error = some e; tx = t; world = w; heap = h }
  queue_packet t w packet (inr m, h) =
      let i = t.ring.next_to_use in
      let r = advance_use t.ring in
      record {
        error = none;
        tx = record t {
          desc_dma = write_desc t.desc_dma i (packet_desc t packet m);
          buffers = set t.buffers i (some (record { dma_stream = m; len = length packet }));
          ring = r;
        };
        world = io.write w tdt (r.next_to_use % 2 ^ 32);
        heap = h;
      }

  -- `TxRing::xmit_frame`
  unfoldable pub xmit_frame : TxRing → io.World → d.Heap → List ℕ → Sent
  unfolding queue_packet
  xmit_frame t w h packet =
      if is_full t.ring
      then record { error = some ring_full; tx = t; world = w; heap = h }
      else queue_packet t w packet (packet_buffer packet h)

module _ ⦃d : Dma⦄ where
  -- A completed descriptor: its buffer is freed and the index moves on.
  unfoldable pub free_slot : TxRing → TxRing
  free_slot t = record t {
    buffers = set t.buffers t.ring.next_to_clean none;
    ring = advance_clean t.ring;
  }

  -- The loop of `clean_tx_irq` on fuel; `none` when the fuel runs out.
  unfoldable pub clean_from : ℕ → TxRing → ℕ → Option (ℕ × TxRing)
  clean_from zero t cleaned = none
  clean_from (suc fuel) t cleaned =
      let i = t.ring.next_to_clean in
      let rest = clean_from fuel (free_slot t) (cleaned + 1) in
      if i == t.ring.next_to_use
      then some (cleaned, t)
      else if tx_done (read_desc t.desc_dma i)
      then rest
      else some (cleaned, t)

  -- `TxRing::clean_tx_irq`
  unfoldable pub clean_tx_irq : TxRing → Option (ℕ × TxRing)
  clean_tx_irq t = clean_from (suc tx_desc_count) t 0
