-- ===== src/R8169/Rx.antt =====
-- kernel/comps/r8169/src/rx.rs: the receive ring, `fill`, `clear` and the polling loop `rtl_rx`.
pub mod Slots
pub mod Fill
pub mod Inv
pub mod Receive
mod Tests
use driver_workflow.Prelude.{
  ℕ, zero, suc, ◌+◌, ◌-◌, ◌*◌, ◌/◌, ◌%◌, ◌^◌, min, bit_and, bit_or, Bool, true, false, not, ◌&&◌,
  ◌||◌, Option, none, some, List, [], ◌∷◌, ◌++◌, ◌==◌, if◌then◌else◌, ltb, replicate, length,
  get_or, set,
}
use driver_workflow.Bits.{has}
use driver_workflow.Dma.{Dma}
use driver_workflow.Mmio.{Mmio}
use driver_workflow.R8169.Regs.{
  desc_own, num_rx_desc, rx_res, rx_rwt, rx_runt, rx_crc, rx_buf_size, eth_fcs_len, rx_proto_mask,
  rx_proto_tcp, rx_proto_udp, rx_cs_fail_mask, rx_vlan_tag_bit, rx_max_size, rx_desc_addr_high,
  rx_desc_addr_low,
}
use driver_workflow.R8169.Desc.{
  RawDesc, DescRing, new, write_desc, read_desc, read_opts1, mark_to_asic, set_ring_end,
  is_fragmented_frame,
}

-- `PKT_SIZE_MASK`
abbrev pub pkt_size_mask : ℕ
pkt_size_mask = 0x3fff

-- `RX_DMA_BUF_PAGES`
abbrev pub rx_dma_buf_pages : ℕ
rx_dma_buf_pages = (rx_buf_size + 4096 - 1) / 4096

pub data RxCsumStatus : Type 0 where
  unnecessary none_checked : RxCsumStatus

-- `rx_csum`
unfoldable pub rx_csum : ℕ → RxCsumStatus
rx_csum opts1 =
    let status = bit_and opts1 (bit_or rx_proto_mask rx_cs_fail_mask) in
    if status == rx_proto_tcp || status == rx_proto_udp then unnecessary else none_checked

-- `u16::swap_bytes`
unfoldable pub swap_bytes : ℕ → ℕ
swap_bytes v = v % 256 * 256 + v / 256

-- `rx_vlan_tag`
unfoldable pub rx_vlan_tag : ℕ → Option ℕ
rx_vlan_tag opts2 =
    if has opts2 rx_vlan_tag_bit then some (swap_bytes (bit_and opts2 0xffff % 2 ^ 16)) else none

-- `RxPollStats`
pub record RxPollStats : Type 0 where
  pub rx_packets : ℕ
  pub rx_bytes : ℕ
  pub rx_errors : ℕ
  pub rx_length_errors : ℕ
  pub rx_crc_errors : ℕ
  pub rx_dropped : ℕ
  pub rx_multicast : ℕ

abbrev pub no_stats : RxPollStats
no_stats = record {
  rx_packets = 0;
  rx_bytes = 0;
  rx_errors = 0;
  rx_length_errors = 0;
  rx_crc_errors = 0;
  rx_dropped = 0;
  rx_multicast = 0;
}

module _ ⦃d : Dma⦄ where
  -- `RxDmaBuf`
  pub record RxDmaBuf : Type 0 where
    pub stream : d.Mem

  -- `RxRing`
  pub record RxRing : Type 0 where
    pub ring : DescRing
    pub slots : List (Option RxDmaBuf)
    pub cur_rx : ℕ

  unfoldable pub map_stream : Option d.Mem → Option RxDmaBuf
  map_stream none = none
  map_stream (some m) = some (record { stream = m })

  unfoldable pub map_rx : Option d.Segment × d.Heap → Option RxDmaBuf × d.Heap
  map_rx (none, h) = (none, h)
  map_rx (some s, h) = (map_stream (d.map_segment s), h)

  -- `RxDmaBuf::alloc`
  unfoldable pub alloc : d.Heap → Option RxDmaBuf × d.Heap
  unfolding map_rx map_stream
  alloc h = map_rx (d.alloc_segment h rx_dma_buf_pages)

  -- `RxDmaBuf::read_packet` into a slice of `room` bytes: how many bytes are copied, and which.
  unfoldable pub read_packet : RxDmaBuf → ℕ → ℕ → Option (ℕ × List ℕ)
  read_packet buf len room =
      let copy_len = min len room in
      if d.syncs buf.stream 0 copy_len && d.is_open buf.stream
      then some (copy_len, d.copy_out buf.stream 0 copy_len)
      else none

  unfoldable pub empty_ring : Option DescRing × d.Heap → Option RxRing × d.Heap
  empty_ring (none, h) = (none, h)
  empty_ring (some r, h) =
      (some (record { ring = r; slots = replicate num_rx_desc none; cur_rx = 0 }), h)

  -- `RxRing::new`
  unfoldable pub new_rx_ring : d.Heap → Option RxRing × d.Heap
  unfolding empty_ring
  new_rx_ring h = empty_ring (new h num_rx_desc)

  -- The steps of `alloc_rx_data` that can fail after the allocation: each is made only if the one
  -- before succeeded, and the slot is set last.
  unfoldable pub place : RxRing → ℕ → RxDmaBuf → Bool × DescRing → Bool × RxRing
  place q i buf (false, r) = (false, record q { ring = r })
  place q i buf (true, r) = (true, record q { ring = r; slots = set q.slots i (some buf) })

  unfoldable pub arm : RxRing → ℕ → RxDmaBuf → Bool × DescRing → Bool × RxRing
  arm q i buf (false, r) = (false, record q { ring = r })
  arm q i buf (true, r) = place q i buf (mark_to_asic r i)

  -- The descriptor that `alloc_rx_data` writes before it is marked.
  abbrev pub fresh_desc : RxDmaBuf → RawDesc
  fresh_desc buf = record {
    opts1 = 0;
    opts2 = 0;
    addr_lo = d.daddr buf.stream % 2 ^ 32;
    addr_hi = d.daddr buf.stream / 2 ^ 32 % 2 ^ 32;
  }

  unfoldable pub load_slot : RxRing → ℕ → Option RxDmaBuf × d.Heap → (Bool × RxRing) × d.Heap
  load_slot q i (none, h) = ((false, q), h)
  load_slot q i (some buf, h) = (arm q i buf (write_desc q.ring i (fresh_desc buf)), h)

  -- `RxRing::alloc_rx_data`
  unfoldable pub alloc_rx_data : RxRing → ℕ → d.Heap → (Bool × RxRing) × d.Heap
  unfolding load_slot arm place
  alloc_rx_data q i h = load_slot q i (alloc h)

  -- One round of `RxRing::clear`; the result of `write_desc` is dropped.
  unfoldable pub clear_slot : RxRing → ℕ → Option RxDmaBuf → RxRing
  clear_slot q i none = q
  clear_slot q i (some buf) = record q {
    slots = set q.slots i none;
    ring = (write_desc q.ring i (record { opts1 = 0; opts2 = 0; addr_lo = 0; addr_hi = 0 })).1;
  }

  unfoldable pub clear_from : ℕ → ℕ → RxRing → RxRing
  clear_from zero i q = q
  clear_from (suc n) i q = clear_from n (i + 1) (clear_slot q i (get_or q.slots i none))

  -- `RxRing::clear`
  unfoldable pub clear : RxRing → RxRing
  unfolding clear_from clear_slot
  clear q = clear_from num_rx_desc 0 q

  -- The loop of `RxRing::fill`, with `n` rounds left from index `i` on.
  unfoldable pub fill_from : ℕ → ℕ → RxRing → d.Heap → (Bool × RxRing) × d.Heap
  fill_from zero i q h =
      let (okay, r) = set_ring_end q.ring num_rx_desc in ((okay, record q { ring = r }), h)
  fill_from (suc n) i q h =
      let ((okay, q'), h') = alloc_rx_data q i h in
      let rest = fill_from n (i + 1) q' h' in if okay then rest else ((false, clear q'), h')

  -- `RxRing::fill`
  unfoldable pub fill : RxRing → d.Heap → (Bool × RxRing) × d.Heap
  unfolding fill_from
  fill q h = fill_from num_rx_desc 0 q h

  remark_from : ℕ → ℕ → DescRing → Bool × DescRing
  remark_from zero i r = (true, r)
  remark_from (suc n) i r =
      let (okay, r') = mark_to_asic r i in
      let rest = remark_from n (i + 1) r' in if okay then rest else (false, r')

  -- `RxRing::remark_all`
  unfoldable pub remark_all : RxRing → Bool × RxRing
  unfolding remark_from
  remark_all q = let (okay, r) = remark_from num_rx_desc 0 q.ring in (okay, record q { ring = r })

  -- What the loop of `rtl_rx` works on.
  pub record Poll : Type 0 where
    pub rx : RxRing
    pub packets : List (List ℕ)
    pub stats : RxPollStats

  -- The descriptor goes back to the hardware and the index moves on.
  release : RxRing → ℕ → RxRing
  release q i = record q { ring = (mark_to_asic q.ring i).1; cur_rx = (q.cur_rx + 1) % 2 ^ 32 }

  -- A frame with `RX_RES` set.
  count_error : ℕ → RxPollStats → RxPollStats
  count_error status s = record s {
    rx_errors = s.rx_errors + 1;
    rx_length_errors =
        if has status (bit_or rx_rwt rx_runt) then s.rx_length_errors + 1 else s.rx_length_errors;
    rx_crc_errors = if has status rx_crc then s.rx_crc_errors + 1 else s.rx_crc_errors;
  }

  count_drop : RxPollStats → RxPollStats
  count_drop s = record s { rx_dropped = s.rx_dropped + 1 }

  count_fragment : RxPollStats → RxPollStats
  count_fragment s = record s {
    rx_dropped = s.rx_dropped + 1;
    rx_length_errors = s.rx_length_errors + 1;
  }

  -- The match on what `read_packet` returns: packets and statistics.
  keep : ℕ → Option (ℕ × List ℕ) → List (List ℕ) → RxPollStats → List (List ℕ) × RxPollStats
  keep size none ps s = (ps, count_drop s)
  keep size (some (n, bytes)) ps s =
      if n == size
      then (
        ps ++ (bytes ∷ []),
        record s { rx_packets = s.rx_packets + 1; rx_bytes = s.rx_bytes + size },
      )
      else (ps, count_drop s)

  take_frame : ℕ → Option RxDmaBuf → List (List ℕ) → RxPollStats → List (List ℕ) × RxPollStats
  take_frame size none ps s = (ps, count_drop s)
  take_frame size (some buf) ps s = keep size (read_packet buf size size) ps s

  -- The body of the loop of `rtl_rx` for a descriptor that the hardware has given back.
  unfoldable pub poll_desc : Poll → ℕ → ℕ → Poll
  unfolding release keep take_frame count_error count_drop count_fragment
  poll_desc p i status =
      let raw = bit_and status pkt_size_mask in
      let size = raw - eth_fcs_len in
      let next = release p.rx i in
      if has status rx_res
      then record p { rx = next; stats = count_error status p.stats }
      else if ltb eth_fcs_len raw
      then if is_fragmented_frame status
        then record p { rx = next; stats = count_fragment p.stats }
        else (let (ps, s) = take_frame size (get_or p.rx.slots i none) p.packets p.stats in
            record { rx = next; packets = ps; stats = s })
      else record p { rx = next; stats = count_drop p.stats }

  -- One round of the loop; `none` is a `break`.
  unfoldable pub poll_one : Poll → Option Poll
  unfolding poll_desc
  poll_one p =
      let i = p.rx.cur_rx % num_rx_desc in
      elim (read_opts1 p.rx.ring i) [
        | none ↦ none
        | some status ↦ if has status desc_own then none else elim (read_desc p.rx.ring i) [
          | none ↦ none
          | some desc ↦ some (poll_desc p i status)
        ]
      ]

  unfoldable pub poll_from : ℕ → Poll → Poll
  unfolding poll_one
  poll_from zero p = p
  poll_from (suc n) p = elim (poll_one p) [ none ↦ p | some q ↦ poll_from n q ]

  -- `rtl_rx`
  unfoldable pub rtl_rx : RxRing → ℕ → Poll
  unfolding poll_from
  rtl_rx q budget = poll_from budget (record { rx = q; packets = []; stats = no_stats })

  -- `receive_one`: the first packet, `none` for `NetError::NotReady`.
  unfoldable pub receive_one : RxRing → Option (List ℕ) × RxRing
  receive_one q = let p = rtl_rx q 1 in (first p.packets, p.rx)
    where
      first : List (List ℕ) → Option (List ℕ)
      first [] = none
      first (b ∷ bs) = some b

-- `set_rx_max_size`
unfoldable pub set_rx_max_size : ⦃io : Mmio⦄ → io.World → Bool × io.World
set_rx_max_size ⦃io⦄ w = io.write w 2 rx_max_size ((rx_buf_size + 1) % 2 ^ 16)

-- `set_rx_desc_addr`: the second write is made only if the first succeeds.
unfoldable pub set_rx_desc_addr : ⦃io : Mmio⦄ → io.World → ℕ → Bool × io.World
set_rx_desc_addr ⦃io⦄ w dma_addr =
    let (okay, w') = io.write w 4 rx_desc_addr_high (dma_addr / 2 ^ 32 % 2 ^ 32) in
    let low = io.write w' 4 rx_desc_addr_low (bit_and dma_addr 0xffff_ffff % 2 ^ 32) in
    if okay then low else (false, w')
