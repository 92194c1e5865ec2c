-- ===== src/R8169/Rx/Slots.antt =====
-- The receive slots: filling and clearing one of them.
use driver_workflow.Prelude.{
  ℕ, zero, suc, ◌+◌, ◌/◌, ◌%◌, ◌^◌, ◌<◌, ◌≡◌, ◌⊎◌, refl, ◌∙◌, Bool, true, false, Option, none, some,
  arith, ◌==◌, if◌then◌else◌, length, get_or, set, length-set, get_or-set, bit_and, bit_or,
  Option-cases, inl, inr,
}
use driver_workflow.Dma.{Dma}
use driver_workflow.R8169.Regs.{desc_own, ring_end, num_rx_desc, rx_buf_size}
use driver_workflow.R8169.Desc.{RawDesc, write_desc}
use driver_workflow.R8169.Desc.Entries.{entry}
use driver_workflow.R8169.Desc.Entries.Access.{
  IsRing, Updates, Updates-IsRing, Updates-again, write_desc_lem, mark_to_asic_lem,
}
use driver_workflow.R8169.Rx.{
  RxDmaBuf, RxRing, alloc, alloc_rx_data, fresh_desc, clear, clear_slot, clear_from, map_rx,
  map_stream, load_slot, arm, place, rx_dma_buf_pages,
}
use driver_workflow.R8169.Rx.Inv.{Buffered}

module _ ⦃d : Dma⦄ where
  -- A ring with all its slots and descriptors, whatever they hold.
  pub record IsSized (q : RxRing) : Type 0 where
    pub is_ring : IsRing num_rx_desc q.ring
    pub slots_count : length q.slots ≡ num_rx_desc
    pub cur_fits : q.cur_rx < 2 ^ 32

  -- One slot and its descriptor written, all others as before.
  pub record Writes (q : RxRing) (i : ℕ) (e : RawDesc) (s : Option RxDmaBuf) (u : RxRing)
      : Type 0 where
    pub ring_changes : Updates q.ring i e u.ring
    pub slots_changes : u.slots ≡ set q.slots i s
    pub cur_same : u.cur_rx ≡ q.cur_rx

  pub Writes-IsSized :
      {q u : RxRing} {i : ℕ} {e : RawDesc} {s : Option RxDmaBuf}
      → Writes q i e s u
      → IsSized q
      → IsSized u
  Writes-IsSized {q} {i = i} {s = s} c v = record {
    is_ring = Updates-IsRing c.ring_changes v.is_ring;
    slots_count = rw (c.slots_changes) (length-set q.slots i s ∙ v.slots_count);
    cur_fits = omega (arith, c.cur_same, v.cur_fits);
  }

  pub Writes-slot :
      {q u : RxRing} {i : ℕ} {e : RawDesc} {s : Option RxDmaBuf} (j : ℕ)
      → Writes q i e s u
      → IsSized q
      → i < num_rx_desc
      → get_or u.slots j none ≡ (if i == j then s else get_or q.slots j none)
  Writes-slot {q} {i = i} {s = s} j c v h =
      rw (c.slots_changes) (get_or-set q.slots i s j none (omega (arith, v.slots_count)))

  -- The descriptor of a slot that waits for a frame: owned by the hardware, with the size and the
  -- address of its buffer; the last one carries the end mark.
  abbrev pub armed : RxDmaBuf → Bool → RawDesc
  armed buf last = record {
    opts1 =
        let v = bit_or (bit_or desc_own (bit_and 0 ring_end)) rx_buf_size in
        if last then bit_or v ring_end else v;
    opts2 = 0;
    addr_lo = d.daddr buf.stream % 2 ^ 32;
    addr_hi = d.daddr buf.stream / 2 ^ 32 % 2 ^ 32;
  }

  pub record Armed (q : RxRing) (last : Bool) (i : ℕ) : Type 0 where
    pub holds : Buffered (get_or q.slots i none)
    pub desc_eq : entry q.ring i ≡ armed holds.buf last

  -- The buffer of a successful allocation has room for the largest frame.
  alloc_lem :
      (h : d.Heap) (buf : RxDmaBuf) → (alloc h).0 ≡ some buf → rx_buf_size < d.size buf.stream
  unfolding alloc map_rx map_stream
  alloc_lem h buf e = go (d.alloc_segment h rx_dma_buf_pages) refl e
    where
      mapped :
          (s : d.Segment) (h' : d.Heap) (m : Option d.Mem)
          → d.alloc_segment h rx_dma_buf_pages ≡ (some s, h')
          → d.map_segment s ≡ m
          → map_stream m ≡ some buf
          → rx_buf_size < d.size buf.stream
      mapped s h' none p r q = cc
      mapped s h' (some m) p r q =
          let is : m ≡ buf.stream = cc in
          rw (← is) (omega (arith, d.size-map h rx_dma_buf_pages h' s m p r))

      go :
          (a : Option d.Segment × d.Heap)
          → d.alloc_segment h rx_dma_buf_pages ≡ a
          → (map_rx a).0 ≡ some buf
          → rx_buf_size < d.size buf.stream
      go (none, h') p q = cc
      go (some s, h') p q = mapped s h' (d.map_segment s) p refl q

  -- `alloc_rx_data` on a sized ring arms the slot, or fails and leaves the ring as it was.
  pub alloc_rx_data_cases :
      (q : RxRing) (i : ℕ) (h : d.Heap)
      → IsSized q
      → i < num_rx_desc
      → let r = (alloc_rx_data q i h).0 in
        ((r.0 ≡ true)
          × ((buf : RxDmaBuf) × (rx_buf_size < d.size buf.stream)
              × Writes q i (armed buf false) (some buf) r.1))
        ⊎ ((r.0 ≡ false) × (r.1 ≡ q))
  unfolding alloc_rx_data
  alloc_rx_data_cases q i h v lt = elim (Option-cases (alloc h).0) [
    | inl e ↦ rw e (inr (refl, refl))
    | inr (buf, e) ↦
        let (okay, u) =
          write_desc_lem num_rx_desc q.ring i (fresh_desc buf) v.is_ring lt (omega arith) in
        let (okay', w) =
          mark_to_asic_lem num_rx_desc (write_desc q.ring i (fresh_desc buf)).1 i
            (Updates-IsRing u v.is_ring) lt in
        rw (e, load_slot, arm, okay, okay', place)
          (inl (
            refl,
            (
              buf,
              alloc_lem h buf e,
              record {
                ring_changes = Updates-again u (rw u.written at w);
                slots_changes = refl;
                cur_same = refl;
              },
            ),
          ))
  ]

  clear_slot_lem :
      (q : RxRing) (i : ℕ) (s : Option RxDmaBuf)
      → get_or q.slots i none ≡ s
      → IsSized q
      → i < num_rx_desc
      → IsSized (clear_slot q i s)
        × ((j : ℕ)
            → get_or (clear_slot q i s).slots j none
              ≡ (if i == j then none else get_or q.slots j none))
  unfolding clear_slot
  clear_slot_lem q i none e v h = (v, λ j. ground (arith, e))
  clear_slot_lem q i (some buf) e v h =
      let z : RawDesc = record { opts1 = 0; opts2 = 0; addr_lo = 0; addr_hi = 0 } in
      let (_, u) = write_desc_lem num_rx_desc q.ring i z v.is_ring h (omega arith) in
      let w : Writes q i z none (clear_slot q i (some buf)) = record {
        ring_changes = u;
        slots_changes = refl;
        cur_same = refl;
      } in
      (Writes-IsSized w v, λ j. Writes-slot j w v h)

  -- No slot keeps a buffer.
  pub record IsEmpty (q : RxRing) : Type 0 where
    pub sized : IsSized q
    pub all_none : (i : ℕ) → i < num_rx_desc → get_or q.slots i none ≡ none

  clear_from-IsEmpty :
      (n i : ℕ) (q : RxRing)
      → i + n ≡ num_rx_desc
      → IsSized q
      → ((j : ℕ) → j < i → get_or q.slots j none ≡ none)
      → IsEmpty (clear_from n i q)
  unfolding clear_from
  clear_from-IsEmpty zero i q e v done = record {
    sized = v;
    all_none = λ j h. done j (omega arith);
  }
  clear_from-IsEmpty (suc n) i q e v done =
      let (v', at) = clear_slot_lem q i (get_or q.slots i none) refl v (omega arith) in
      clear_from-IsEmpty n (i + 1) _ (omega arith) v' (λ j h. at j ∙ ground (arith, done j))

  pub clear-IsEmpty : (q : RxRing) → IsSized q → IsEmpty (clear q)
  unfolding clear
  clear-IsEmpty q v = clear_from-IsEmpty num_rx_desc 0 q refl v (λ j h. absurd (omega arith))
