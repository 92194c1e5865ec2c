-- ===== src/R8169/Rx/Fill.antt =====
-- `RxRing::fill` and `RxRing::clear`: a ring is filled whole, or no buffer is left in it.
use driver_workflow.R8169.Rx.Slots.{
  IsSized, Writes, Writes-IsSized, Writes-slot, armed, Armed, alloc_rx_data_cases, IsEmpty,
  clear-IsEmpty,
}
use driver_workflow.Prelude.{
  ℕ, zero, suc, ◌+◌, ◌-◌, ◌<◌, ◌≡◌, ◌≢◌, ◌⊎◌, refl, ap, ◌∙◌, subst, Bool, true, false, Option, none,
  some, arith, ◌==◌, length, get_or, bit_or, ==_false, replicate, length-replicate,
  get_or-replicate, inl, inr,
}
use native.Mathlib.Decide.{ℕ_discrete}
use driver_workflow.Dma.{Dma}
use driver_workflow.R8169.Regs.{ring_end, num_rx_desc, rx_buf_size}
use driver_workflow.R8169.Desc.{RawDesc, DescRing, new, set_ring_end}
use driver_workflow.R8169.Desc.Entries.Access.{Updates-IsRing, set_ring_end_lem}
use driver_workflow.R8169.Desc.Entries.Fresh.{new_lem}
use driver_workflow.R8169.Rx.{
  new_rx_ring, empty_ring, RxDmaBuf, RxRing, alloc_rx_data, fill, fill_from,
}
use driver_workflow.R8169.Rx.Inv.{IsValid}

module _ ⦃d : Dma⦄ where
  -- Every slot is armed, and the end mark stands on the last descriptor alone.
  pub record IsFull (q : RxRing) : Type 0 where
    pub sized : IsSized q
    pub all_armed : (i : ℕ) → i < num_rx_desc → Armed q (i == num_rx_desc - 1) i

  Armed-Writes_ne :
      {q u : RxRing} {i : ℕ} {e : RawDesc} {s : Option RxDmaBuf} {b : Bool} (j : ℕ)
      → Writes q i e s u
      → IsSized q
      → i < num_rx_desc
      → j ≢ i
      → Armed q b j
      → Armed u b j
  Armed-Writes_ne {q} {u} {b = b} j c v h ne a =
      let same : get_or u.slots j none ≡ get_or q.slots j none =
        Writes-slot j c v h ∙ ground arith in
      record {
        holds = record { buf = a.holds.buf; kept = same ∙ a.holds.kept; room = a.holds.room };
        desc_eq = c.ring_changes.others_kept j ne ∙ a.desc_eq;
      }

  Armed-Writes :
      {q u : RxRing} {i : ℕ} (buf : RxDmaBuf)
      → rx_buf_size < d.size buf.stream
      → Writes q i (armed buf false) (some buf) u
      → IsSized q
      → i < num_rx_desc
      → Armed u false i
  Armed-Writes {i = i} buf room c v h = record {
    holds = record { buf = buf; kept = Writes-slot i c v h ∙ ground arith; room = room };
    desc_eq = c.ring_changes.written;
  }

  end-IsFull :
      (q : RxRing)
      → IsSized q
      → ((j : ℕ) → j < num_rx_desc → Armed q false j)
      → let r = set_ring_end q.ring num_rx_desc in (r.0 ≡ true) × IsFull (record q { ring = r.1 })
  end-IsFull q v all =
      let a = all 255 (omega arith) in
      let last = a.desc_eq in
      let (okay, u) = set_ring_end_lem 255 q.ring v.is_ring (rw last (omega arith)) in
      (
        okay,
        record {
          sized = record {
            is_ring = Updates-IsRing u v.is_ring;
            slots_count = v.slots_count;
            cur_fits = v.cur_fits;
          };
          all_armed = λ i h. elim (ℕ_discrete i 255) [
            | yes same ↦ rw same (record {
              holds = a.holds;
              desc_eq =
                  u.written
                  ∙ ap (λ (e : RawDesc). record e { opts1 = bit_or e.opts1 ring_end }) last;
            })
            | no ne ↦ rw (==_false i 255 ne) (record {
              holds = (all i h).holds;
              desc_eq = u.others_kept i ne ∙ (all i h).desc_eq;
            })
          ];
        },
      )

  fill_from_cases :
      (n i : ℕ) (q : RxRing) (h : d.Heap)
      → i + n ≡ num_rx_desc
      → IsSized q
      → ((j : ℕ) → j < i → Armed q false j)
      → let r = (fill_from n i q h).0 in ((r.0 ≡ true) × IsFull r.1) ⊎ ((r.0 ≡ false) × IsEmpty r.1)
  unfolding fill_from
  fill_from_cases zero i q h e v all = inl (end-IsFull q v (λ j k. all j (omega arith)))
  fill_from_cases (suc n) i q h e v all = elim (alloc_rx_data_cases q i h v (omega arith)) [
    | inl (okay, (buf, room, w)) ↦
        rw (fill_from, okay)
          (fill_from_cases n (i + 1) (alloc_rx_data q i h).0.1 _ (omega arith) (Writes-IsSized w v)
            (λ j k. elim (ℕ_discrete j i) [
              | yes same ↦ rw same (Armed-Writes buf room w v (omega arith))
              | no ne ↦ Armed-Writes_ne j w v (omega arith) ne (all j (omega arith))
            ]))
    | inr (failed, same) ↦ rw (fill_from, failed, same) (inr (refl, clear-IsEmpty q v))
  ]

  -- `fill` on a ring with all its slots and descriptors either succeeds, and then every slot has a
  -- buffer for the largest frame, every descriptor is owned by the hardware with that buffer's
  -- address and size, and the end mark stands on the last one alone; or it fails, and then no slot
  -- keeps a buffer.
  pub fill_cases :
      (q : RxRing) (h : d.Heap)
      → IsSized q
      → let r = (fill q h).0 in ((r.0 ≡ true) × IsFull r.1) ⊎ ((r.0 ≡ false) × IsEmpty r.1)
  unfolding fill
  fill_cases q h v = fill_from_cases num_rx_desc 0 q h refl v (λ j k. absurd (omega arith))

  -- A filled ring is one that `rtl_rx` can poll.
  pub IsFull-IsValid : (q : RxRing) → IsFull q → IsValid q
  IsFull-IsValid q f = record {
    is_ring = f.sized.is_ring;
    slots_count = f.sized.slots_count;
    cur_fits = f.sized.cur_fits;
    buffered = λ i h. (f.all_armed i h).holds;
  }

  -- A ring that `RxRing::new` hands out has all its slots and descriptors, and no buffer.
  pub new_rx_ring-IsEmpty : (h : d.Heap) (q : RxRing) → (new_rx_ring h).0 ≡ some q → IsEmpty q
  unfolding new_rx_ring empty_ring
  new_rx_ring-IsEmpty h q e = go (new h num_rx_desc) refl e
    where
      go :
          (a : Option DescRing × d.Heap)
          → new h num_rx_desc ≡ a
          → (empty_ring a).0 ≡ some q
          → IsEmpty q
      go (none, h') p e = cc
      go (some r, h') p e =
          let made : RxRing = record { ring = r; slots = replicate num_rx_desc none; cur_rx = 0 } in
          let is : made ≡ q = cc in
          let (v, _) = new_lem h num_rx_desc r (ap (λ (o : Option DescRing × d.Heap). o.0) p) in
          let counted : length made.slots ≡ num_rx_desc =
            length-replicate {A = Option RxDmaBuf} num_rx_desc none in
          subst IsEmpty is (record {
            sized = record { is_ring = v; slots_count = counted; cur_fits = omega arith };
            all_none = λ i lt. get_or-replicate num_rx_desc none i none lt;
          })
