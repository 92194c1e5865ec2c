-- ===== src/E1000/Tx/Xmit.antt =====
-- `xmit_frame`: every branch, and the queue of frames in flight.
use driver_workflow.Prelude.{
  ℕ, ◌+◌, ◌*◌, ◌%◌, ◌^◌, ◌≤◌, ◌<◌, ◌≡◌, ◌≢◌, ◌⊎◌, inl, inr, refl, ap, ◌∙◌, Option, none, some, List,
  [], ◌∷◌, ◌++◌, arith, length, Bool-cases,
}
use driver_workflow.Bits.{bit_or-lt}
use driver_workflow.Bytes.{to_le_bytes}
use driver_workflow.Dma.{Dma}
use driver_workflow.Mmio.{Registers}
use driver_workflow.E1000.Regs.{tdt}
use driver_workflow.E1000.Desc.{E1000TxDesc, is_full, new_data, tx_desc_bytes, bytes_tx_desc}
use driver_workflow.E1000.Desc.Index.{in_use, is_full_iff, unused_count-in_use}
use driver_workflow.E1000.Desc.Stored.{
  IsTxDesc, bytes_tx_desc-tx_desc_bytes, stored_same, stored_ne,
}
use driver_workflow.E1000.Tx.{
  TxRing, TxError, ring_full, Sent, tx_desc_count, write_desc, read_desc, packet_buffer, map_buffer,
  fill_buffer, packet_desc, xmit_frame, queue_packet,
}
use driver_workflow.E1000.Tx.Inv.{IsValid, in_flight, filled-IsValid}

length-tx_desc_bytes : (e : E1000TxDesc) → length (tx_desc_bytes e) ≡ 16
unfolding tx_desc_bytes to_le_bytes
length-tx_desc_bytes e = refl

module _ ⦃d : Dma⦄ where
  -- A descriptor written to the ring is read back, and no other changes.
  pub read_desc-write_desc :
      (m : d.Mem) (i : ℕ) (e : E1000TxDesc)
      → IsTxDesc e
      → i < tx_desc_count
      → tx_desc_count * 16 ≤ d.size m
      → (read_desc (write_desc m i e) i ≡ e)
        × ((j : ℕ) → j ≢ i → read_desc (write_desc m i e) j ≡ read_desc m j)
  unfolding read_desc write_desc
  read_desc-write_desc m i e v h fits = (
    ap bytes_tx_desc (stored_same m i tx_desc_count _ (length-tx_desc_bytes e) h fits)
        ∙ bytes_tx_desc-tx_desc_bytes e v,
    λ j ne. ap bytes_tx_desc (stored_ne m i j _ (length-tx_desc_bytes e) ne),
  )

  size-write_desc : (m : d.Mem) (i : ℕ) (e : E1000TxDesc) → d.size (write_desc m i e) ≡ d.size m
  unfolding write_desc
  size-write_desc m i e = d.size-copy_in m (i * 16) (tx_desc_bytes e)

  packet_desc-IsTxDesc :
      (t : TxRing) (packet : List ℕ) (m : d.Mem) → IsValid t → IsTxDesc (packet_desc t packet m)
  unfolding new_data
  packet_desc-IsTxDesc t packet m v = record {
    addr_fits = omega arith;
    lower_fits = bit_or-lt 32 _ _ (omega arith) (omega arith);
    upper_fits = omega arith;
  }

  -- A buffer that was made holds the packet.
  pub record Carries (packet : List ℕ) (m : d.Mem) : Type 0 where
    pub room : length packet ≤ d.size m
    pub bytes_eq : d.copy_out m 0 (length packet) ≡ packet

  fill_buffer-Carries :
      (packet : List ℕ) (h : d.Heap) (o : Option d.Mem) (m : d.Mem)
      → (fill_buffer packet h o).0 ≡ inr m
      → Carries packet m
  unfolding fill_buffer
  fill_buffer-Carries packet h none m e = cc
  fill_buffer-Carries packet h (some b) m e =
      elim (Bool-cases (d.syncs (d.copy_in b 0 packet) 0 (length packet))) [
        | inl okay ↦
            let e' : d.copy_in b 0 packet ≡ m = ground (arith, d.open_always b, okay, e) in
            let fits : length packet ≤ d.size b =
              omega (arith, d.syncs_only_within _ _ _ okay, d.size-copy_in b 0 packet) in
            rw (← e') (record {
              room = omega (arith, fits, d.size-copy_in b 0 packet);
              bytes_eq =
                  d.copy_out-copy_in_same b 0 (length packet) packet refl (omega (arith, fits));
            })
        | inr bad ↦ ground (arith, d.open_always b, bad, e)
      ]

  map_buffer-Carries :
      (packet : List ℕ) (a : Option d.Segment × d.Heap) (m : d.Mem)
      → (map_buffer packet a).0 ≡ inr m
      → Carries packet m
  unfolding map_buffer
  map_buffer-Carries packet (none, h) m e = cc
  map_buffer-Carries packet (some s, h) m e = fill_buffer-Carries packet h (d.map_segment s) m e

  packet_buffer-Carries :
      (packet : List ℕ) (h : d.Heap) (m : d.Mem)
      → (packet_buffer packet h).0 ≡ inr m
      → Carries packet m
  unfolding packet_buffer
  packet_buffer-Carries packet h m e = map_buffer-Carries packet _ m e

module _ ⦃d : Dma⦄ ⦃io : Registers⦄ where
  -- A frame that was sent: a buffer with its bytes joins the queue, the descriptor at
  -- `next_to_use` describes it, and the device is told the new tail.
  pub record Queues (t : TxRing) (w : io.World) (packet : List ℕ) (s : Sent) : Type 0 where
    pub buf : d.Mem
    pub carries : Carries packet buf
    pub desc_eq : read_desc s.tx.desc_dma t.ring.next_to_use ≡ packet_desc t packet buf
    pub valid : IsValid s.tx
    pub queue :
        in_flight s.tx
        ≡ in_flight t ++ (some (record { dma_stream = buf; len = length packet }) ∷ [])
    pub tail : s.world ≡ io.write w tdt (s.tx.ring.next_to_use % 2 ^ 32)

  queue_packet-Queues :
      (t : TxRing) (w : io.World) (packet : List ℕ) (m : d.Mem) (h : d.Heap)
      → IsValid t
      → in_use t.ring + 1 < tx_desc_count
      → Carries packet m
      → Queues t w packet (queue_packet t w packet (inr m, h))
  unfolding queue_packet new_data
  queue_packet-Queues t w packet m h v room c =
      let i = t.ring.next_to_use in
      let e = packet_desc t packet m in
      let i_in : i < tx_desc_count = omega (arith, v.in_ring.use_in, v.counted) in
      let (same, others) =
        read_desc-write_desc t.desc_dma i e (packet_desc-IsTxDesc t packet m v) i_in v.fits in
      let (v', q) =
        filled-IsValid t (write_desc t.desc_dma i e)
          (record { dma_stream = m; len = length packet }) v room (size-write_desc t.desc_dma i e)
          (ap (λ (x : E1000TxDesc). x.buffer_addr) same ∙ refl) others in
      record { buf = m; carries = c; desc_eq = same; valid = v'; queue = q; tail = refl }

  -- A frame refused for want of room, one whose buffer could not be made, and one sent.
  abbrev pub Outcome : TxRing → io.World → d.Heap → List ℕ → Sent → Type 0
  Outcome t w h packet s =
      ((s.error ≡ some ring_full)
        × (in_use t.ring + 1 ≡ tx_desc_count)
        × (s.tx ≡ t)
        × (s.world ≡ w))
      ⊎ (((e : TxError) × (s.error ≡ some e)
            × ((packet_buffer packet h).0 ≡ inl e)
            × (in_use t.ring + 1 < tx_desc_count)
            × (s.tx ≡ t)
            × (s.world ≡ w))
          ⊎ ((s.error ≡ none) × (in_use t.ring + 1 < tx_desc_count) × Queues t w packet s))

  queue_packet-Outcome :
      (t : TxRing) (w : io.World) (h : d.Heap) (packet : List ℕ) (b : (TxError ⊎ d.Mem) × d.Heap)
      → IsValid t
      → packet_buffer packet h ≡ b
      → in_use t.ring + 1 < tx_desc_count
      → Outcome t w h packet (queue_packet t w packet b)
  unfolding queue_packet
  queue_packet-Outcome t w h packet (inl e, h') v p room =
      inr (inl (e, refl, ap (λ (b : (TxError ⊎ d.Mem) × d.Heap). b.0) p, room, refl, refl))
  queue_packet-Outcome t w h packet (inr m, h') v p room =
      let made =
        packet_buffer-Carries packet h m (ap (λ (b : (TxError ⊎ d.Mem) × d.Heap). b.0) p) in
      inr (inr (refl, room, queue_packet-Queues t w packet m h' v room made))

  -- `xmit_frame` on a valid ring either refuses the frame because 255 descriptors are in use, or
  -- reports the step that failed in making its buffer, both with the ring and the device as they
  -- were, or queues it: a buffer with its bytes joins the frames in flight, the descriptor at
  -- `next_to_use` describes it, the ring stays valid and the device is told the new tail.
  pub xmit_frame_cases :
      (t : TxRing) (w : io.World) (h : d.Heap) (packet : List ℕ)
      → IsValid t
      → Outcome t w h packet (xmit_frame t w h packet)
  unfolding xmit_frame
  xmit_frame_cases t w h packet v =
      let full = is_full_iff t.ring v.in_ring in
      let count = unused_count-in_use t.ring v.in_ring in
      elim (Bool-cases (is_full t.ring)) [
        | inl is ↦ rw is (inl (refl, full.0 is ∙ v.counted, refl, refl))
        | inr free ↦
            let room : in_use t.ring + 1 < tx_desc_count =
              ground (arith, full, free, count, v.counted) in
            rw free (queue_packet-Outcome t w h packet (packet_buffer packet h) v refl room)
      ]
