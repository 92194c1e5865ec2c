-- ===== src/R8169/Rx/Inv.antt =====
-- The invariant of the receive ring, and one round of `rtl_rx` on a ring that keeps it.
use driver_workflow.Prelude.{
  ℕ, suc, ◌+◌, ◌-◌, ◌%◌, ◌^◌, ◌≤◌, ◌<◌, ◌≡◌, refl, sym, min, Bool, true, false, not, Option, none,
  some, List, [], ◌∷◌, ◌++◌, arith, if◌then◌else◌, ltb, length, get_or, bit_and, bit_or, ◌||◌,
  Bool-cases, inl, inr, ==_refl,
}
use driver_workflow.Bits.{has, bit, has-bit_or, has-two_pow, bit_and-le_right}
use driver_workflow.Dma.{Dma}
use driver_workflow.R8169.Regs.{desc_own, ring_end, num_rx_desc, rx_buf_size, rx_res, eth_fcs_len}
use driver_workflow.R8169.Desc.{RawDesc, DescRing, is_fragmented_frame}
use driver_workflow.R8169.Desc.Entries.{entry}
use driver_workflow.R8169.Desc.Entries.Access.{
  IsRing, Updates, Updates-IsRing, rearmed, read_opts1_lem, read_desc_lem, mark_to_asic_lem,
}
use driver_workflow.R8169.Rx.{
  RxDmaBuf, RxRing, Poll, pkt_size_mask, read_packet, release, poll_desc, poll_one, keep,
  take_frame, count_error, count_drop, count_fragment,
}
use mathlib.Core.List.{append-nil}

-- What a status word says of a frame: `some size` for a whole frame without errors.
unfoldable pub frame_size : ℕ → Option ℕ
frame_size status =
    let raw = bit_and status pkt_size_mask in
    if has status rx_res || (not (ltb eth_fcs_len raw) || is_fragmented_frame status)
    then none
    else some (raw - eth_fcs_len)

module _ ⦃d : Dma⦄ where
  abbrev pub owned : DescRing → ℕ → Bool
  owned r i = has (entry r i).opts1 desc_own

  -- How far a slot lies ahead of the next one to be polled.
  abbrev pub ahead : RxRing → ℕ → ℕ
  ahead q i = (i + num_rx_desc - q.cur_rx % num_rx_desc) % num_rx_desc

  -- A slot with a buffer that has room for the largest frame.
  pub record Buffered (s : Option RxDmaBuf) : Type 0 where
    pub buf : RxDmaBuf
    pub kept : s ≡ some buf
    pub room : rx_buf_size < d.size buf.stream

  pub record IsValid (q : RxRing) : Type 0 where
    pub is_ring : IsRing num_rx_desc q.ring
    pub slots_count : length q.slots ≡ num_rx_desc
    pub cur_fits : q.cur_rx < 2 ^ 32
    pub buffered : (i : ℕ) → i < num_rx_desc → Buffered (get_or q.slots i none)

  frame_in : Option ℕ → Option RxDmaBuf → List (List ℕ)
  frame_in none s = []
  frame_in (some n) none = []
  frame_in (some n) (some buf) = d.copy_out buf.stream 0 n ∷ []

  size_in : Option ℕ → ℕ
  size_in none = 0
  size_in (some n) = n

  -- The frame that a descriptor's status word and its buffer hold, if any, and its size.
  unfoldable pub frame_at : RxRing → ℕ → List (List ℕ)
  unfolding frame_in
  frame_at q i = frame_in (frame_size (entry q.ring i).opts1) (get_or q.slots i none)

  unfoldable pub size_at : RxRing → ℕ → ℕ
  unfolding size_in
  size_at q i = size_in (frame_size (entry q.ring i).opts1)

  -- One round of the loop, on a descriptor that the hardware has given back.
  pub record Round (p : Poll) (next : Poll) : Type 0 where
    pub rearms :
        let i = p.rx.cur_rx % num_rx_desc in
        Updates p.rx.ring i (rearmed (entry p.rx.ring i)) next.rx.ring
    pub slots_same : next.rx.slots ≡ p.rx.slots
    pub cur_next : next.rx.cur_rx ≡ (p.rx.cur_rx + 1) % 2 ^ 32
    pub packets_more : next.packets ≡ p.packets ++ frame_at p.rx (p.rx.cur_rx % num_rx_desc)
    pub packets_count :
        next.stats.rx_packets
        ≡ p.stats.rx_packets + length (frame_at p.rx (p.rx.cur_rx % num_rx_desc))
    pub bytes_count :
        next.stats.rx_bytes ≡ p.stats.rx_bytes + size_at p.rx (p.rx.cur_rx % num_rx_desc)
    pub all_counted :
        next.stats.rx_packets + next.stats.rx_errors + next.stats.rx_dropped
        ≡ suc (p.stats.rx_packets + p.stats.rx_errors + p.stats.rx_dropped)

  pub owned-rearmed : (e : RawDesc) → has (rearmed e).opts1 desc_own ≡ true
  unfolding bit
  owned-rearmed e =
      let kept = bit_and e.opts1 ring_end in
      ground (
        arith,
        has-bit_or 31 (bit_or desc_own kept) rx_buf_size,
        has-bit_or 31 desc_own kept,
        has-two_pow 31 desc_own,
      )

  pub Round-IsValid : {p next : Poll} → IsValid p.rx → Round p next → IsValid next.rx
  Round-IsValid v r = record {
    is_ring = Updates-IsRing r.rearms v.is_ring;
    slots_count = rw (r.slots_same) v.slots_count;
    cur_fits = omega (arith, r.cur_next);
    buffered = rw (r.slots_same) v.buffered;
  }

  -- A buffer with room is read whole.
  read_packet_lem :
      (buf : RxDmaBuf) (size : ℕ)
      → size ≤ d.size buf.stream
      → read_packet buf size size ≡ some (size, d.copy_out buf.stream 0 size)
  unfolding read_packet
  read_packet_lem buf size h =
      let all : min size size ≡ size = omega arith in
      ground (arith, all, d.open_always buf.stream, d.syncs_within buf.stream 0 size)

  -- A descriptor given back by the hardware is taken: its frame is kept or counted.
  pub poll_desc-Round :
      (p : Poll)
      → IsValid p.rx
      → let i = p.rx.cur_rx % num_rx_desc in Round p (poll_desc p i (entry p.rx.ring i).opts1)
  unfolding poll_desc release frame_at size_at frame_size keep take_frame count_error count_drop
      count_fragment
  poll_desc-Round p v =
      let i = p.rx.cur_rx % num_rx_desc in
      let status = (entry p.rx.ring i).opts1 in
      let b = v.buffered i (omega arith) in
      let (_, u) = mark_to_asic_lem num_rx_desc p.rx.ring i v.is_ring (omega arith) in
      let fits : bit_and status pkt_size_mask - eth_fcs_len ≤ d.size b.buf.stream =
        omega (arith, b.room, bit_and-le_right status pkt_size_mask) in
      let none_more = sym (append-nil p.packets) in
      elim (Bool-cases (has status rx_res)) [
        | inl bad ↦
            rw (poll_desc, bad)
              (record {
                rearms = u;
                slots_same = refl;
                cur_next = refl;
                packets_more = rw (frame_at, frame_size, bad) none_more;
                packets_count = rw (frame_at, frame_size, bad) (omega arith);
                bytes_count = rw (size_at, frame_size, bad) (omega arith);
                all_counted = omega arith;
              })
        | inr good ↦ elim (Bool-cases (ltb eth_fcs_len (bit_and status pkt_size_mask))) [
          | inr short ↦
              rw (poll_desc, good, short)
                (record {
                  rearms = u;
                  slots_same = refl;
                  cur_next = refl;
                  packets_more = rw (frame_at, frame_size, good, short) none_more;
                  packets_count = rw (frame_at, frame_size, good, short) (omega arith);
                  bytes_count = rw (size_at, frame_size, good, short) (omega arith);
                  all_counted = omega arith;
                })
          | inl long ↦ elim (Bool-cases (is_fragmented_frame status)) [
            | inl part ↦
                rw (poll_desc, good, long, part)
                  (record {
                    rearms = u;
                    slots_same = refl;
                    cur_next = refl;
                    packets_more = rw (frame_at, frame_size, good, long, part) none_more;
                    packets_count = rw (frame_at, frame_size, good, long, part) (omega arith);
                    bytes_count = rw (size_at, frame_size, good, long, part) (omega arith);
                    all_counted = omega arith;
                  })
            | inr whole ↦
                rw
                  (
                    poll_desc,
                    good,
                    long,
                    whole,
                    take_frame,
                    b.kept,
                    read_packet_lem b.buf _ fits,
                    ==_refl (bit_and status pkt_size_mask - eth_fcs_len),
                  )
                  (record {
                    rearms = u;
                    slots_same = refl;
                    cur_next = refl;
                    packets_more = rw (frame_at, frame_size, good, long, whole, b.kept) refl;
                    packets_count =
                        rw (frame_at, frame_size, good, long, whole, b.kept) (omega arith);
                    bytes_count = rw (size_at, frame_size, good, long, whole) (omega arith);
                    all_counted = omega arith;
                  })
          ]
        ]
      ]

  -- One round on a valid ring stops at an owned descriptor and takes any other.
  pub poll_one-owned :
      (p : Poll)
      → IsValid p.rx
      → owned p.rx.ring (p.rx.cur_rx % num_rx_desc) ≡ true
      → poll_one p ≡ none
  unfolding poll_one
  poll_one-owned p v busy =
      let i = p.rx.cur_rx % num_rx_desc in
      rw (poll_one, read_opts1_lem num_rx_desc p.rx.ring i v.is_ring (omega arith), busy) refl

  pub poll_one-free :
      (p : Poll)
      → IsValid p.rx
      → owned p.rx.ring (p.rx.cur_rx % num_rx_desc) ≡ false
      → (next : Poll) × (poll_one p ≡ some next) × Round p next
  unfolding poll_one
  poll_one-free p v free =
      let i = p.rx.cur_rx % num_rx_desc in
      (
        poll_desc p i (entry p.rx.ring i).opts1,
        rw
            (
              poll_one,
              read_opts1_lem num_rx_desc p.rx.ring i v.is_ring (omega arith),
              free,
              read_desc_lem num_rx_desc p.rx.ring i v.is_ring (omega arith),
            )
            refl,
        poll_desc-Round p v,
      )
