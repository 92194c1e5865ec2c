-- ===== src/E1000e/Tx/Legacy.antt =====
-- The transmit ring of the e1000e driver against that of the e1000 driver: the same descriptors,
-- under other names, and the same steps.
use driver_workflow.Prelude.{
  ℕ, zero, suc, ◌+◌, ◌*◌, ◌/◌, ◌%◌, ◌^◌, ◌<◌, ◌≡◌, ◌⊎◌, inl, inr, refl, sym, ap, ◌∙◌, not, Option,
  none, some, List, [], ◌∷◌, ◌++◌, map, arith, Bool-cases, length, get_or, set, slice, map-set,
  ◌==◌, leb, bit_or,
}
use driver_workflow.Bits.{has, bit, has-two_pow, bit_or-add}
use driver_workflow.Bytes.{to_le_bytes, from_le_bytes}
use driver_workflow.Dma.{Dma}
use driver_workflow.Mmio.{Registers}
use driver_workflow.E1000.Desc.{E1000TxDesc, DescRing, new_data, tx_desc_bytes, bytes_tx_desc}
use driver_workflow.E1000
use driver_workflow.E1000.Tx.{TxError, ring_full}
use driver_workflow.E1000e.Regs.{txd_stat_dd, tdt}
use driver_workflow.E1000e.Tx.{
  TxBufferInfo, TxRing, Sent, tx_desc_to_bytes, bytes_to_tx_desc, unused_count, can_send,
  write_desc, read_desc, fill_buffer, map_buffer, packet_buffer, queue_packet, xmit_frame,
  free_slot, clean_from, clean_tx_irq, new_ring, map_ring, alloc_ring,
}

-- The four bytes of the lower word are the length, the checksum offset and the command.
lower_bytes :
    (len cmd : ℕ)
    → len < 2 ^ 16
    → cmd < 2 ^ 8
    → to_le_bytes 4 (bit_or len (cmd * 2 ^ 24 % 2 ^ 32)) ≡ to_le_bytes 2 len ++ (0 ∷ cmd ∷ [])
unfolding to_le_bytes
lower_bytes len cmd h c =
    let e : cmd * 2 ^ 24 % 2 ^ 32 ≡ cmd * 2 ^ 24 = omega arith in
    let s = bit_or-add 24 len cmd (omega arith) in
    let v = len + cmd * 2 ^ 24 in
    let b0 : v % 256 ≡ len % 256 = omega arith in
    let b1 : v / 256 % 256 ≡ len / 256 % 256 = omega arith in
    let b2 : v / 256 / 256 % 256 ≡ 0 = omega arith in
    let b3 : v / 256 / 256 / 256 % 256 ≡ cmd = omega arith in rw (e, s, b0, b1, b2, b3) refl

-- The descriptor of a packet has the same 16 bytes in both drivers.
desc_bytes :
    (addr len cmd : ℕ)
    → len < 2 ^ 16
    → cmd < 2 ^ 8
    → tx_desc_to_bytes (record {
      buffer_addr = addr;
      length = len;
      cso = 0;
      cmd = cmd;
      status = 0;
      css = 0;
      special = 0;
    })
      ≡ tx_desc_bytes (new_data addr len cmd)
unfolding tx_desc_to_bytes tx_desc_bytes new_data to_le_bytes
desc_bytes addr len cmd h c =
    ap (λ xs. to_le_bytes 8 addr ++ (xs ++ to_le_bytes 4 0)) (sym (lower_bytes len cmd h c))

-- Bit 0 of a little-endian word is bit 0 of its first byte.
from_le_bytes-parity :
    (i n : ℕ) (bs : List ℕ) → from_le_bytes (slice i (suc n) bs) % 2 ≡ get_or bs i 0 % 2
unfolding from_le_bytes
from_le_bytes-parity zero n [] = refl
from_le_bytes-parity (suc i) n [] = refl
from_le_bytes-parity zero n (b ∷ bs) = omega arith
from_le_bytes-parity (suc i) n (b ∷ bs) = from_le_bytes-parity i n bs

done-eq :
    (bs : List ℕ)
    → has (bytes_to_tx_desc bs).status txd_stat_dd ≡ E1000.Desc.tx_done (bytes_tx_desc bs)
unfolding bytes_to_tx_desc E1000.Desc.tx_done bytes_tx_desc bit
done-eq bs =
    has-two_pow 0 (get_or bs 12 0)
    ∙ ap (λ x. x == 1) (sym (from_le_bytes-parity 12 3 bs))
    ∙ sym (has-two_pow 0 (from_le_bytes (slice 12 4 bs)))

module _ ⦃d : Dma⦄ where
  abbrev pub legacy_info : TxBufferInfo → E1000.Tx.TxBufferInfo
  legacy_info b = record { dma_stream = b.dma_stream; len = b.len }

  abbrev pub legacy_slot : Option TxBufferInfo → Option E1000.Tx.TxBufferInfo
  legacy_slot none = none
  legacy_slot (some b) = some (legacy_info b)

  -- The ring as the e1000 driver holds it.
  abbrev pub legacy : TxRing → E1000.Tx.TxRing
  legacy t = record {
    desc_dma = t.desc_dma;
    ring = record { count = t.count; next_to_use = t.next_to_use; next_to_clean = t.next_to_clean };
    buffers = map legacy_slot t.buffers;
    txd_cmd = t.txd_cmd;
  }

  abbrev pub legacy_option : Option TxRing → Option E1000.Tx.TxRing
  legacy_option none = none
  legacy_option (some t) = some (legacy t)

  free_slot-legacy : (t : TxRing) → legacy (free_slot t) ≡ E1000.Tx.free_slot (legacy t)
  unfolding free_slot E1000.Tx.free_slot E1000.Desc.advance_clean
  free_slot-legacy t =
      ap
        (λ bs. record {
          desc_dma = t.desc_dma;
          ring = record {
            count = t.count;
            next_to_use = t.next_to_use;
            next_to_clean = (t.next_to_clean + 1) % t.count;
          };
          buffers = bs;
          txd_cmd = t.txd_cmd;
        })
        (map-set legacy_slot t.buffers t.next_to_clean none)

  abbrev pub ring_of : Option (ℕ × E1000.Tx.TxRing) → Option E1000.Tx.TxRing
  ring_of none = none
  ring_of (some r) = some r.1

  clean_from-legacy :
      (fuel : ℕ) (t : TxRing) (cleaned : ℕ)
      → legacy_option (clean_from fuel t) ≡ ring_of (E1000.Tx.clean_from fuel (legacy t) cleaned)
  unfolding clean_from E1000.Tx.clean_from E1000.Tx.read_desc read_desc
  clean_from-legacy zero t cleaned = refl
  clean_from-legacy (suc fuel) t cleaned =
      let ih = clean_from-legacy fuel (free_slot t) (cleaned + 1) in
      let bs = d.copy_out t.desc_dma (t.next_to_clean * 16) 16 in
      elim (Bool-cases (t.next_to_clean == t.next_to_use)) [
        | inl last ↦ rw (clean_from, E1000.Tx.clean_from, last) refl
        | inr more ↦ elim (Bool-cases (E1000.Desc.tx_done (bytes_tx_desc bs))) [
          | inl done ↦
              rw (clean_from, E1000.Tx.clean_from, more, done-eq bs, done)
                (ih
                  ∙ ap (λ r. ring_of (E1000.Tx.clean_from fuel r (cleaned + 1)))
                      (free_slot-legacy t))
          | inr wait ↦ rw (clean_from, E1000.Tx.clean_from, more, done-eq bs, wait) refl
        ]
      ]

  -- `clean_tx_irq` leaves the ring that the `clean_tx_irq` of the e1000 driver leaves.
  pub clean_tx_irq-legacy :
      (t : TxRing) → legacy_option (clean_tx_irq t) ≡ ring_of (E1000.Tx.clean_tx_irq (legacy t))
  unfolding clean_tx_irq E1000.Tx.clean_tx_irq
  clean_tx_irq-legacy t = clean_from-legacy (suc 256) t 0

  map_ring-legacy : (m : Option d.Mem) → legacy_option (map_ring m) ≡ E1000.Tx.map_ring m
  unfolding map_ring E1000.Tx.map_ring
  map_ring-legacy none = refl
  map_ring-legacy (some m) = refl

  -- `TxRing::new` makes the ring that the e1000 driver makes.
  pub new_ring-legacy : (h : d.Heap) → legacy_option (new_ring h).0 ≡ (E1000.Tx.new_ring h).0
  unfolding new_ring E1000.Tx.new_ring alloc_ring E1000.Tx.alloc_ring
  new_ring-legacy h = go (d.alloc_segment h 1)
    where
      go :
          (a : Option d.Segment × d.Heap)
          → legacy_option (alloc_ring a).0 ≡ (E1000.Tx.alloc_ring a).0
      go (none, h') = refl
      go (some s, h') = map_ring-legacy (d.map_segment s)

module _ ⦃d : Dma⦄ ⦃io : Registers⦄ where
  abbrev pub legacy_sent : Sent → E1000.Tx.Sent
  legacy_sent s = record { error = s.error; tx = legacy s.tx; world = s.world; heap = s.heap }

  fill_buffer-legacy :
      (packet : List ℕ) (h : d.Heap) (m : Option d.Mem)
      → fill_buffer packet h m ≡ E1000.Tx.fill_buffer packet h m
  unfolding fill_buffer E1000.Tx.fill_buffer
  fill_buffer-legacy packet h none = refl
  fill_buffer-legacy packet h (some m) = refl

  packet_buffer-legacy :
      (packet : List ℕ) (h : d.Heap) → packet_buffer packet h ≡ E1000.Tx.packet_buffer packet h
  unfolding packet_buffer E1000.Tx.packet_buffer map_buffer E1000.Tx.map_buffer
  packet_buffer-legacy packet h = go (d.alloc_segment h ((length packet + 4095) / 4096))
    where
      go : (a : Option d.Segment × d.Heap) → map_buffer packet a ≡ E1000.Tx.map_buffer packet a
      go (none, h') = refl
      go (some s, h') = fill_buffer-legacy packet h' (d.map_segment s)

  queue_packet-legacy :
      (t : TxRing) (w : io.World) (packet : List ℕ) (b : (TxError ⊎ d.Mem) × d.Heap)
      → t.txd_cmd < 2 ^ 8
      → legacy_sent (queue_packet t w packet b) ≡ E1000.Tx.queue_packet (legacy t) w packet b
  unfolding queue_packet E1000.Tx.queue_packet write_desc E1000.Tx.write_desc E1000.Desc.advance_use
  queue_packet-legacy t w packet (inl e, h) c = refl
  queue_packet-legacy t w packet (inr m, h) c =
      let i = t.next_to_use in
      let next = (i + 1) % t.count in
      let made : d.Mem → List (Option E1000.Tx.TxBufferInfo) → E1000.Tx.Sent = λ dma bs. record {
        error = none;
        tx = record {
          desc_dma = dma;
          ring = record { count = t.count; next_to_use = next; next_to_clean = t.next_to_clean };
          buffers = bs;
          txd_cmd = t.txd_cmd;
        };
        world = io.write w tdt (next % 2 ^ 32);
        heap = h;
      } in
      let bytes =
        desc_bytes (d.daddr m % 2 ^ 64) (length packet % 2 ^ 16) t.txd_cmd (omega arith) c in
      let slots =
        map-set legacy_slot t.buffers i (some (record { dma_stream = m; len = length packet })) in
      let queued =
        map legacy_slot (set t.buffers i (some (record { dma_stream = m; len = length packet }))) in
      ap (λ bs. made (d.copy_in t.desc_dma (i * 16) bs) queued) bytes ∙ ap (made _) slots

  full-legacy : (t : TxRing) → not (can_send t) ≡ E1000.Desc.is_full (legacy t).ring
  unfolding can_send unused_count E1000.Desc.is_full E1000.Desc.unused_count
  full-legacy t = one_less (E1000.Desc.unused_count (legacy t).ring)
    where
      one_less : (u : ℕ) → not (leb 1 u) ≡ (u == 0)
      one_less u = ground arith

  -- `xmit_frame` does to the ring, the device and the allocator what the `xmit_frame` of the e1000
  -- driver does, and returns the same result, for a command that fits its byte.
  pub xmit_frame-legacy :
      (t : TxRing) (w : io.World) (h : d.Heap) (packet : List ℕ)
      → t.txd_cmd < 2 ^ 8
      → legacy_sent (xmit_frame t w h packet) ≡ E1000.Tx.xmit_frame (legacy t) w h packet
  unfolding xmit_frame E1000.Tx.xmit_frame
  xmit_frame-legacy t w h packet c =
      let full = full-legacy t in
      elim (Bool-cases (E1000.Desc.is_full (legacy t).ring)) [
        | inl is ↦ rw (full, is) refl
        | inr free ↦
            rw (full, free)
              (queue_packet-legacy t w packet (packet_buffer packet h) c
                ∙ ap (E1000.Tx.queue_packet (legacy t) w packet) (packet_buffer-legacy packet h))
      ]
