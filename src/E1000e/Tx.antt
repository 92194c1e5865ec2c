-- ===== src/E1000e/Tx.antt =====
-- kernel/comps/e1000e/src/tx.rs: the transmit ring of the 82574L. As in the e1000 driver,
-- `writer()` and `reader()` of the ring's region are unwrapped and the results of its syncs
-- dropped, so that a descriptor access is a plain copy; the errors are those of that driver.
pub mod Legacy
pub mod Correct
mod Tests
use driver_workflow.Prelude.{
  ℕ, zero, suc, ◌+◌, ◌-◌, ◌*◌, ◌/◌, ◌%◌, ◌^◌, bit_and, bit_or, Bool, not, Option, none, some, List,
  ◌∷◌, ◌++◌, ◌==◌, if◌then◌else◌, leb, ltb, length, get_or, set, slice, replicate, ◌⊎◌, inl, inr,
}
use driver_workflow.Bits.{has}
use driver_workflow.Bytes.{to_le_bytes, from_le_bytes}
use driver_workflow.Dma.{Dma}
use driver_workflow.Mmio.{Registers}
use driver_workflow.E1000.Tx.{TxError, ring_full, no_buffer, no_mapping, no_writer, sync_failed}
use driver_workflow.E1000e.Regs.{
  status, tctl, tipg, tdbal, tdbah, tdlen, tdh, tdt, tidv, txdctl, tctl_en, tctl_psp, tctl_ct_shift,
  tctl_cold_shift, collision_threshold, collision_distance_fd, tipg_ipgt_copper, tipg_ipgr1_shift,
  tipg_ipgr1, tipg_ipgr2_shift, tipg_ipgr2, txdctl_full_tx_desc_wb, tx_desc_size, txd_cmd_eop,
  txd_cmd_ifcs, txd_cmd_rs, txd_stat_dd,
}

-- `TX_DESC_COUNT`
abbrev pub tx_desc_count : ℕ
tx_desc_count = 256

-- `TxDesc` of desc.rs
pub record TxDesc : Type 0 where
  pub buffer_addr : ℕ
  pub length : ℕ
  pub cso : ℕ
  pub cmd : ℕ
  pub status : ℕ
  pub css : ℕ
  pub special : ℕ

-- `tx_desc_to_bytes` and `bytes_to_tx_desc`
unfoldable pub tx_desc_to_bytes : TxDesc → List ℕ
tx_desc_to_bytes e =
    to_le_bytes 8 e.buffer_addr
    ++ (to_le_bytes 2 e.length ++ (e.cso ∷ e.cmd ∷ e.status ∷ e.css ∷ to_le_bytes 2 e.special))

unfoldable pub bytes_to_tx_desc : List ℕ → TxDesc
bytes_to_tx_desc bytes = record {
  buffer_addr = from_le_bytes (slice 0 8 bytes);
  length = from_le_bytes (slice 8 2 bytes);
  cso = get_or bytes 10 0;
  cmd = get_or bytes 11 0;
  status = get_or bytes 12 0;
  css = get_or bytes 13 0;
  special = from_le_bytes (slice 14 2 bytes);
}

module _ ⦃d : Dma⦄ where
  pub record TxBufferInfo : Type 0 where
    pub dma_stream : d.Mem
    pub len : ℕ

  pub record TxRing : Type 0 where
    pub desc_dma : d.Mem
    pub buffers : List (Option TxBufferInfo)
    pub next_to_use : ℕ
    pub next_to_clean : ℕ
    pub count : ℕ
    pub txd_cmd : ℕ

  unfoldable pub map_ring : Option d.Mem → Option TxRing
  map_ring none = none
  map_ring (some m) = some (record {
    desc_dma = m;
    buffers = replicate tx_desc_count none;
    next_to_use = 0;
    next_to_clean = 0;
    count = tx_desc_count;
    txd_cmd = bit_or (bit_or txd_cmd_eop txd_cmd_ifcs) txd_cmd_rs;
  })

  unfoldable pub alloc_ring : Option d.Segment × d.Heap → Option TxRing × d.Heap
  unfolding map_ring
  alloc_ring (none, h) = (none, h)
  alloc_ring (some s, h) = (map_ring (d.map_segment s), h)

  -- `TxRing::new`
  unfoldable pub new_ring : d.Heap → Option TxRing × d.Heap
  unfolding alloc_ring
  new_ring h = alloc_ring (d.alloc_segment h ((tx_desc_count * tx_desc_size + 4095) / 4096))

  -- `TxRing::unused_count`
  unfoldable pub unused_count : TxRing → ℕ
  unused_count t =
      if ltb t.next_to_use t.next_to_clean
      then t.next_to_clean - t.next_to_use - 1
      else t.count + t.next_to_clean - t.next_to_use - 1

  -- `TxRing::can_send`
  unfoldable pub can_send : TxRing → Bool
  can_send t = leb 1 (unused_count t)

  -- `TxRing::write_desc` and `TxRing::read_desc`
  unfoldable pub write_desc : d.Mem → ℕ → TxDesc → d.Mem
  write_desc m i e = d.copy_in m (i * tx_desc_size) (tx_desc_to_bytes e)

  unfoldable pub read_desc : d.Mem → ℕ → TxDesc
  read_desc m i = bytes_to_tx_desc (d.copy_out m (i * tx_desc_size) 16)

  -- The packet is copied into the mapped buffer and synced.
  unfoldable pub fill_buffer : List ℕ → d.Heap → Option d.Mem → (TxError ⊎ d.Mem) × d.Heap
  fill_buffer packet h none = (inl no_mapping, h)
  fill_buffer packet h (some m) =
      let m' = d.copy_in m 0 packet in
      if d.is_open m
      then (if d.syncs m' 0 (length packet) then (inr m', h) else (inl sync_failed, h))
      else (inl no_writer, h)

  unfoldable pub map_buffer : List ℕ → Option d.Segment × d.Heap → (TxError ⊎ d.Mem) × d.Heap
  map_buffer packet (none, h) = (inl no_buffer, h)
  map_buffer packet (some s, h) = fill_buffer packet h (d.map_segment s)

  -- The steps of `xmit_frame` that can fail: the buffer of a packet.
  unfoldable pub packet_buffer : List ℕ → d.Heap → (TxError ⊎ d.Mem) × d.Heap
  unfolding map_buffer fill_buffer
  packet_buffer packet h = map_buffer packet (d.alloc_segment h ((length packet + 4095) / 4096))

  -- The descriptor of a packet in a buffer.
  abbrev pub packet_desc : TxRing → List ℕ → d.Mem → TxDesc
  packet_desc t packet m = record {
    buffer_addr = d.daddr m % 2 ^ 64;
    length = length packet % 2 ^ 16;
    cso = 0;
    cmd = t.txd_cmd;
    status = 0;
    css = 0;
    special = 0;
  }

module _ ⦃d : Dma⦄ ⦃io : Registers⦄ where
  -- What a call of `xmit_frame` leaves; `none` is `Ok(())`.
  pub record Sent : Type 0 where
    pub error : Option TxError
    pub tx : TxRing
    pub world : io.World
    pub heap : d.Heap

  unfoldable pub queue_packet : TxRing → io.World → List ℕ → (TxError ⊎ d.Mem) × d.Heap → Sent
  queue_packet t w packet (inl e, h) = record { error = some e; tx = t; world = w; heap = h }
  queue_packet t w packet (inr m, h) =
      let i = t.next_to_use in
      let next = (i + 1) % t.count in
      record {
        error = none;
        tx = record t {
          desc_dma = write_desc t.desc_dma i (packet_desc t packet m);
          buffers = set t.buffers i (some (record { dma_stream = m; len = length packet }));
          next_to_use = next;
        };
        world = io.write w tdt (next % 2 ^ 32);
        heap = h;
      }

  -- `TxRing::xmit_frame`
  unfoldable pub xmit_frame : TxRing → io.World → d.Heap → List ℕ → Sent
  unfolding queue_packet
  xmit_frame t w h packet =
      if not (can_send t)
      then record { error = some ring_full; tx = t; world = w; heap = h }
      else queue_packet t w packet (packet_buffer packet h)

module _ ⦃d : Dma⦄ where
  -- A completed descriptor: its buffer is freed and the index moves on.
  unfoldable pub free_slot : TxRing → TxRing
  free_slot t = record t {
    buffers = set t.buffers t.next_to_clean none;
    next_to_clean = (t.next_to_clean + 1) % t.count;
  }

  -- The loop of `clean_tx_irq` on fuel; `none` when the fuel runs out.
  unfoldable pub clean_from : ℕ → TxRing → Option TxRing
  clean_from zero t = none
  clean_from (suc fuel) t =
      let i = t.next_to_clean in
      let rest = clean_from fuel (free_slot t) in
      if i == t.next_to_use
      then some t
      else if not (has (read_desc t.desc_dma i).status txd_stat_dd)
      then some t
      else rest

  -- `TxRing::clean_tx_irq`
  unfoldable pub clean_tx_irq : TxRing → Option TxRing
  clean_tx_irq t = clean_from (suc tx_desc_count) t

module _ ⦃io : Registers⦄ where
  -- `configure_tx`, for a ring at `dma_addr`.
  unfoldable pub configure_tx : io.World → ℕ → io.World
  configure_tx w dma_addr =
      let w1 = io.write w tdbal (bit_and dma_addr 0xffff_ffff % 2 ^ 32) in
      let w2 = io.write w1 tdbah (bit_and (dma_addr / 2 ^ 32) 0xffff_ffff % 2 ^ 32) in
      let w3 = io.write w2 tdlen (tx_desc_count * tx_desc_size % 2 ^ 32) in
      let w4 = io.write w3 tdh 0 in
      let w5 = io.write w4 tdt 0 in
      let w6 = io.write w5 tidv 8 in
      let w7 = io.write w6 txdctl txdctl_full_tx_desc_wb in
      let w8 = io.write w7 tctl (
        bit_or (bit_or (bit_or tctl_en tctl_psp) (collision_threshold * 2 ^ tctl_ct_shift % 2 ^ 32))
          (collision_distance_fd * 2 ^ tctl_cold_shift % 2 ^ 32)) in
      io.write w8 tipg (
        bit_or (bit_or tipg_ipgt_copper (tipg_ipgr1 * 2 ^ tipg_ipgr1_shift % 2 ^ 32))
          (tipg_ipgr2 * 2 ^ tipg_ipgr2_shift % 2 ^ 32))
