-- ===== src/E1000/Tx/Clean.antt =====
-- `clean_tx_irq`: which descriptors a pass reclaims, and that it ends.
use driver_workflow.Prelude.{
  ℕ, zero, suc, ◌+◌, ◌%◌, ◌<◌, ◌≡◌, ◌⊎◌, inl, inr, refl, ap, ◌∙◌, true, false, Option, none, some,
  List, [], ◌∷◌, ◌++◌, arith, ◌==◌, length, length-replicate, get_or-replicate, replicate, subst,
  Bool-cases,
}
use driver_workflow.Dma.{Dma}
use driver_workflow.E1000.Desc.{tx_done, advance_clean, new}
use driver_workflow.E1000.Desc.Index.{in_use, in_use-advance_clean}
use driver_workflow.E1000.Tx.{
  TxRing, TxBufferInfo, read_desc, tx_desc_count, free_slot, clean_from, clean_tx_irq, new_ring,
  alloc_ring, map_ring,
}
use driver_workflow.E1000.Tx.Inv.{IsValid, buffer_at, in_flight, freed-IsValid}

module _ ⦃d : Dma⦄ where
  -- A pass over the ring `t`: it frees a prefix of the frames in flight, all of them done, counts
  -- them, and stops at the first that is not done, or at the end.
  pub record Cleans (t : TxRing) (cleaned : ℕ) (out : ℕ × TxRing) : Type 0 where
    pub freed : List (Option TxBufferInfo)
    pub split : in_flight t ≡ freed ++ in_flight out.1
    pub counted : out.0 ≡ cleaned + length freed
    pub valid : IsValid out.1
    pub descs_same : out.1.desc_dma ≡ t.desc_dma
    pub use_same : out.1.ring.next_to_use ≡ t.ring.next_to_use
    pub all_done :
        (j : ℕ)
        → j < length freed
        → tx_done (read_desc t.desc_dma ((t.ring.next_to_clean + j) % tx_desc_count)) ≡ true
    pub stopped :
        (out.1.ring.next_to_clean ≡ out.1.ring.next_to_use)
        ⊎ (tx_done (read_desc t.desc_dma out.1.ring.next_to_clean) ≡ false)

  Cleans-none :
      (t : TxRing) (cleaned : ℕ)
      → IsValid t
      → (t.ring.next_to_clean ≡ t.ring.next_to_use)
        ⊎ (tx_done (read_desc t.desc_dma t.ring.next_to_clean) ≡ false)
      → Cleans t cleaned (cleaned, t)
  Cleans-none t cleaned v stop = record {
    freed = [];
    split = refl;
    counted = omega arith;
    valid = v;
    descs_same = refl;
    use_same = refl;
    all_done = λ j h. elim h [ ];
    stopped = stop;
  }

  Cleans-more :
      (t : TxRing) (cleaned : ℕ) (out : ℕ × TxRing)
      → IsValid t
      → 0 < in_use t.ring
      → tx_done (read_desc t.desc_dma t.ring.next_to_clean) ≡ true
      → Cleans (free_slot t) (cleaned + 1) out
      → Cleans t cleaned out
  unfolding free_slot advance_clean
  Cleans-more t cleaned out v some_used done r = record {
    freed = buffer_at t t.ring.next_to_clean ∷ r.freed;
    split = (freed-IsValid t v some_used).1 ∙ ap (◌∷◌ (buffer_at t t.ring.next_to_clean)) r.split;
    counted = omega (arith, r.counted);
    valid = r.valid;
    descs_same = r.descs_same;
    use_same = r.use_same;
    all_done = every;
    stopped = r.stopped;
  }
    where
      every :
          (j : ℕ)
          → j < suc (length r.freed)
          → tx_done (read_desc t.desc_dma ((t.ring.next_to_clean + j) % tx_desc_count)) ≡ true
      every zero h =
          let e : (t.ring.next_to_clean + 0) % tx_desc_count ≡ t.ring.next_to_clean =
            omega (arith, v.in_ring.clean_in, v.counted) in
          rw e done
      every (suc j) h =
          let at = r.all_done j (omega arith) in
          let e : ((t.ring.next_to_clean + 1) % tx_desc_count + j) % tx_desc_count
              ≡ (t.ring.next_to_clean + suc j) % tx_desc_count =
            omega arith in
          rw (v.counted, e) at at

  clean_from-Cleans :
      (fuel : ℕ) (t : TxRing) (cleaned : ℕ)
      → IsValid t
      → in_use t.ring < fuel
      → (out : ℕ × TxRing) × (clean_from fuel t cleaned ≡ some out) × Cleans t cleaned out
  unfolding clean_from free_slot advance_clean
  clean_from-Cleans zero t cleaned v h = elim h [ ]
  clean_from-Cleans (suc fuel) t cleaned v h =
      elim (Bool-cases (t.ring.next_to_clean == t.ring.next_to_use)) [
        | inl end ↦ (
          (cleaned, t),
          rw (clean_from, end) refl,
          Cleans-none t cleaned v (inl (ground (arith, end))),
        )
        | inr more ↦ elim (Bool-cases (tx_done (read_desc t.desc_dma t.ring.next_to_clean))) [
          | inr wait ↦
              ((cleaned, t), rw (clean_from, more, wait) refl, Cleans-none t cleaned v (inr wait))
          | inl done ↦
              let some_used : 0 < in_use t.ring =
                ground (arith, more, v.in_ring.use_in, v.in_ring.clean_in) in
              let less = (in_use-advance_clean t.ring v.in_ring some_used).1 in
              let (out, e, r) =
                clean_from-Cleans fuel (free_slot t) (cleaned + 1) (freed-IsValid t v some_used).0
                  (omega (arith, less, h)) in
              (out, rw (clean_from, more, done) e, Cleans-more t cleaned out v some_used done r)
        ]
      ]

  -- `clean_tx_irq` on a valid ring ends within its fuel. It frees the buffers of the frames in
  -- flight from the oldest on, up to the first that the device has not done, and returns how many.
  pub clean_tx_irq-Cleans :
      (t : TxRing) → IsValid t → (out : ℕ × TxRing) × (clean_tx_irq t ≡ some out) × Cleans t 0 out
  unfolding clean_tx_irq
  clean_tx_irq-Cleans t v =
      clean_from-Cleans (suc tx_desc_count) t 0 v
        (ground (arith, v.in_ring.use_in, v.in_ring.clean_in, v.counted))

  map_ring-IsValid :
      (m : Option d.Mem) (t : TxRing)
      → ((b : d.Mem) → m ≡ some b → d.size b ≡ 4096)
      → map_ring m ≡ some t
      → IsValid t × (in_flight t ≡ [])
  unfolding map_ring
  map_ring-IsValid none t fits e = cc
  map_ring-IsValid (some b) t fits e =
      let made : TxRing = record {
        desc_dma = b;
        ring = new tx_desc_count;
        buffers = replicate tx_desc_count none;
        txd_cmd = 11;
      } in
      let is : made ≡ t = cc in
      subst (λ (x : TxRing). IsValid x × (in_flight x ≡ [])) is
        (
          record {
            fits = omega (arith, fits b refl);
            counted = refl;
            in_ring = record { use_in = omega arith; clean_in = omega arith };
            buffers_count = length-replicate {A = Option TxBufferInfo} tx_desc_count none;
            cmd_fits = omega arith;
            held = λ i h p. absurd (omega (arith, p));
            vacant = λ i h p. get_or-replicate tx_desc_count none i none h;
          },
          refl,
        )

  -- A ring that `TxRing::new` hands out is valid and has no frame in flight.
  pub new_tx_ring-IsValid :
      (h : d.Heap) (t : TxRing) → (new_ring h).0 ≡ some t → IsValid t × (in_flight t ≡ [])
  unfolding new_ring alloc_ring
  new_tx_ring-IsValid h t e = go (d.alloc_segment h 1) refl e
    where
      go :
          (a : Option d.Segment × d.Heap)
          → d.alloc_segment h 1 ≡ a
          → (alloc_ring a).0 ≡ some t
          → IsValid t × (in_flight t ≡ [])
      go (none, h') p q = cc
      go (some s, h') p q =
          map_ring-IsValid (d.map_segment s) t (λ b m. omega (arith, d.size-map h 1 h' s b p m)) q
