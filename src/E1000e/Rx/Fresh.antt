-- ===== src/E1000e/Rx/Fresh.antt =====
-- The ring that `alloc_rx_ring` hands out, and a call of `clean_rx_irq` on it before a frame has come.
use driver_workflow.Prelude.{
  ℕ, zero, suc, ◌⊎◌, ap, ◌≤◌, ◌+◌, ◌%◌, ◌<◌, ◌≡◌, inl, inr, refl, sym, ◌∙◌, Bool, false, Option,
  none, some, [], arith, if◌then◌else◌, length-replicate, subst, lt_cases,
}
use driver_workflow.Dma.{Dma}
use driver_workflow.Mmio.{Registers}
use driver_workflow.Pool.{RxPool}
use driver_workflow.E1000e.Regs.{rx_desc_count}
use driver_workflow.E1000e.Desc.{
  DescRing, buffer, is_done, read_desc, unused_count, fill_slot, fill_from, fill_ring, empty_ring,
  alloc_rx_ring,
}
use driver_workflow.E1000e.Desc.Ring.{
  IsRing, Same, Filled, refilled, refilled-IsRing, refilled-Filled, refilled-Same,
}
use driver_workflow.E1000e.Rx.{
  Receiver, Pass, RxRing, clean_from, clean_rx_irq, alloc_rx_buffers, alloc_all_rx_buffers,
}
use driver_workflow.E1000e.Rx.Alloc.{given, alloc_from-Refills}
use driver_workflow.E1000e.Rx.Held.{Holding}

module _ ⦃d : Dma⦄ ⦃p : RxPool⦄ where
  -- A new ring: every slot holds a buffer under a descriptor that is not done, and both indices
  -- are 0.
  pub record Fresh (q : DescRing p.RxBuffer) : Type 0 where
    pub shape : IsRing q
    pub use_eq : q.next_to_use ≡ 0
    pub clean_eq : q.next_to_clean ≡ 0
    pub filled : (j : ℕ) → j < rx_desc_count → Filled q j

  fill_from-Fresh :
      (n i : ℕ) (q q' : DescRing p.RxBuffer) (pool : p.Pool)
      → IsRing q
      → q.next_to_use ≡ 0
      → q.next_to_clean ≡ 0
      → i + n ≡ rx_desc_count
      → ((j : ℕ) → j < i → Filled q j)
      → (fill_from n i q pool).0 ≡ some q'
      → Fresh q'
  unfolding fill_from fill_slot
  fill_from-Fresh zero i q q' pool v u c total filled e =
      let is : q ≡ q' = cc in
      rw (← is)
        (record { shape = v; use_eq = u; clean_eq = c; filled = λ j lt. filled j (omega arith) })
  fill_from-Fresh (suc n) i q q' pool v u c total filled e =
      go
        (λ b pool'.
          fill_from-Fresh n (i + 1) (refilled q i b) q' pool' (refilled-IsRing q i b v) u c
            (omega arith) (more b))
        (p.take_buffer pool) e
    where
      more : (b : p.RxBuffer) (j : ℕ) → j < i + 1 → Filled (refilled q i b) j
      more b j lt = elim (lt_cases j i) [
        | inl old ↦
            let (b', kept, wait) = filled j old in
            let (eb, ed) = refilled-Same q i b j v (omega arith) (λ x. omega arith) in
            (b', eb ∙ kept, rw ed wait)
        | inr new ↦
            let here : j ≡ i = omega arith in rw here (refilled-Filled q i b v (omega arith))
      ]

      after : Bool × DescRing p.RxBuffer × p.Pool → Option (DescRing p.RxBuffer) × p.Pool
      after (okay, r, pool') = if okay then fill_from n (i + 1) r pool' else (none, pool')

      go :
          ((b : p.RxBuffer) (pool' : p.Pool)
            → (fill_from n (i + 1) (refilled q i b) pool').0 ≡ some q'
            → Fresh q')
          → (t : Option p.RxBuffer × p.Pool) → (after (fill_slot q i t)).0 ≡ some q'
          → Fresh q'
      go ih (none, pool') e' = cc
      go ih (some b, pool') e' = ih b pool' e'

  fill_ring-Fresh :
      (o : Option d.Mem) (q : DescRing p.RxBuffer) (pool : p.Pool)
      → ((m : d.Mem) → o ≡ some m → d.size m ≡ 4096)
      → (fill_ring rx_desc_count pool (empty_ring rx_desc_count 16 o)).0 ≡ some q
      → Fresh q
  unfolding fill_ring empty_ring
  fill_ring-Fresh none q pool sized e = cc
  fill_ring-Fresh (some m) q pool sized e =
      fill_from-Fresh rx_desc_count 0 _ q pool
        (record {
          counted = refl;
          sized = refl;
          fits = omega (arith, sized m refl);
          slots = length-replicate {A = Option p.RxBuffer} rx_desc_count none;
        })
        refl refl refl (λ j lt. elim lt [ ]) e

  -- A ring of 256 descriptors that `alloc_rx_ring` hands out holds a buffer in every slot, under a
  -- descriptor that is not done, and both its indices are 0.
  pub alloc_rx_ring-Fresh :
      (h : d.Heap) (pool : p.Pool) (q : DescRing p.RxBuffer)
      → (alloc_rx_ring rx_desc_count h pool).0.0 ≡ some q
      → Fresh q
  unfolding alloc_rx_ring
  alloc_rx_ring-Fresh h pool q e =
      fill_ring-Fresh (d.alloc_coherent h 1).0 q pool
        (λ m is. omega (arith, d.size-alloc_coherent h 1 m is)) e

  pub Fresh-Holding : (q : DescRing p.RxBuffer) → Fresh q → Holding q q.next_to_clean rx_desc_count
  Fresh-Holding q f =
      subst (λ c. Holding q c rx_desc_count) (sym f.clean_eq)
        (record {
          shape = f.shape;
          index_in = omega arith;
          at_most = omega arith;
          use_eq = omega (arith, f.use_eq);
          held = λ j lt.
              let e : (0 + j) % rx_desc_count ≡ j = omega arith in
              let (b, kept, _) = f.filled j lt in (b, rw e kept);
        })

module _ ⦃d : Dma⦄ ⦃p : RxPool⦄ ⦃io : Registers⦄ where
  clean_from_idle :
      (crc_stripping : Bool) (budget : ℕ) (s : Pass)
      → is_done (read_desc s.receiver.ring s.index) ≡ false
      → clean_from crc_stripping budget s ≡ s
  unfolding clean_from
  clean_from_idle crc_stripping zero s wait = refl
  clean_from_idle crc_stripping (suc budget) s wait = rw (clean_from, wait) refl

  -- A slot that held a buffer, and holds the one that the pool gave after `j` others instead.
  pub record Overwritten (q q' : DescRing p.RxBuffer) (pool : p.Pool) (j : ℕ) : Type 0 where
    pub old : p.RxBuffer
    pub new : p.RxBuffer
    pub before : buffer q j ≡ some old
    pub now : buffer q' j ≡ some new
    pub given_eq : given j pool ≡ some new
    pub waiting : is_done (read_desc q' j) ≡ false

  -- The first `m` slots are overwritten, 255 of them unless the pool runs out; the others are left.
  pub record Overwrites (q q' : DescRing p.RxBuffer) (pool : p.Pool) : Type 0 where
    pub m : ℕ
    pub at_most : m ≤ 255
    pub each : (j : ℕ) → j < m → Overwritten q q' pool j
    pub others : (j : ℕ) → j < rx_desc_count → m ≤ j → Same q' q j
    pub ended : (m ≡ 255) ⊎ (given m pool ≡ none)
    pub use_eq : q'.next_to_use ≡ m
    pub clean_eq : q'.next_to_clean ≡ 0

  alloc_rx_buffers-Overwrites :
      (r : Receiver) → Fresh r.ring → Overwrites r.ring (alloc_rx_buffers r 255).ring r.pool
  unfolding alloc_rx_buffers
  alloc_rx_buffers-Overwrites r f =
      let s =
        alloc_from-Refills 255 r.ring.next_to_use r f.shape (omega (arith, f.use_eq))
          (omega arith) in
      record {
        m = s.m;
        at_most = s.at_most;
        each = λ j lt.
            let at : (r.ring.next_to_use + j) % rx_desc_count ≡ j =
              omega (arith, f.use_eq, s.at_most) in
            let (old, before, _) = f.filled j (omega (arith, s.at_most)) in
            let (new, now, wait) = s.filled j lt in
            record {
              old = old;
              new = new;
              before = before;
              now = ap (buffer (alloc_rx_buffers r 255).ring) (sym at) ∙ now;
              given_eq = sym (s.given_eq j lt) ∙ now;
              waiting =
                  ap (λ k. is_done (read_desc (alloc_rx_buffers r 255).ring k)) (sym at) ∙ wait;
            };
        others = λ j lt far. s.others j lt (ground (arith, f.use_eq));
        ended = s.ended;
        use_eq = omega (arith, s.use_eq, f.use_eq, s.at_most);
        clean_eq = s.clean_same ∙ f.clean_eq;
      }

  -- On a new ring, of which the device owns every slot and has completed none, a call of
  -- `clean_rx_irq` delivers nothing. It still asks the pool for 255 buffers and puts those that it
  -- gets, in their order, into the first slots, of which each already held a buffer.
  pub clean_rx_irq-Overwrites :
      (x : RxRing) (w : io.World) (pool : p.Pool) (budget : ℕ)
      → Fresh x.ring
      → ((clean_rx_irq x w pool budget).packets ≡ [])
        × Overwrites x.ring (clean_rx_irq x w pool budget).rx.ring pool
  unfolding clean_rx_irq alloc_all_rx_buffers
  clean_rx_irq-Overwrites x w pool budget f =
      let (_, _, wait) = f.filled 0 (omega arith) in
      let idle =
        clean_from_idle x.crc_stripping budget
          (record {
            receiver = record { ring = x.ring; world = w; pool = pool };
            index = x.ring.next_to_clean;
            cleaned_count = 0;
            is_discarding = x.is_discarding;
            received = [];
          })
          (subst (λ i. is_done (read_desc x.ring i) ≡ false) (sym f.clean_eq) wait) in
      let unused : unused_count x.ring ≡ 255 =
        ground (arith, f.shape.counted, f.use_eq, f.clean_eq) in
      rw idle (
        refl,
        rw unused
            (alloc_rx_buffers-Overwrites (record { ring = x.ring; world = w; pool = pool }) f),
      )
