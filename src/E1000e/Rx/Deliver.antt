-- ===== src/E1000e/Rx/Deliver.antt =====
-- A whole call of `clean_rx_irq`, and the ring that it leaves.
use driver_workflow.Prelude.{
  ℕ, ◌+◌, ◌%◌, ◌≤◌, ◌<◌, ◌≡◌, ◌⊎◌, inl, inr, refl, sym, ◌∙◌, true, false, none, [], arith,
  Bool-cases, ltb, lt_cases,
}
use mathlib.Core.Bool.{false≢true}
use driver_workflow.Dma.{Dma}
use driver_workflow.Mmio.{Registers}
use driver_workflow.Pool.{RxPool}
use driver_workflow.E1000e.Regs.{rx_desc_count, rx_buffer_write}
use driver_workflow.E1000e.Desc.{DescRing, is_done, read_desc, unused_count, set_next_to_clean}
use driver_workflow.E1000e.Desc.Ring.{unused_count-past}
use driver_workflow.E1000e.Rx.{
  Receiver, Pass, Received, RxRing, clean_from, clean_rx_irq, alloc_rx_buffers,
  alloc_all_rx_buffers,
}
use driver_workflow.E1000e.Rx.Alloc.{alloc_from-Refills}
use driver_workflow.E1000e.Rx.Held.{Holding, After, After-join, After-none}
use driver_workflow.E1000e.Rx.Round.{Refills-After}
use driver_workflow.E1000e.Rx.Clean.{
  whole_frames, left_open, slots_from, Waits, Runs, clean_from-Runs,
}

module _ ⦃d : Dma⦄ ⦃p : RxPool⦄ ⦃io : Registers⦄ where
  recleaned-After :
      (q : DescRing p.RxBuffer) (c n i : ℕ)
      → Holding q c n
      → (a : After q c n (set_next_to_clean q i) 0) × (a.n' ≡ n)
  unfolding read_desc
  recleaned-After q c n i v =
      let e : (c + 0) % rx_desc_count ≡ c = omega (arith, v.index_in) in
      (
        record {
          n' = n;
          holding = rw e (record {
            shape = record {
              counted = v.shape.counted;
              sized = v.shape.sized;
              fits = v.shape.fits;
              slots = v.shape.slots;
            };
            index_in = v.index_in;
            at_most = v.at_most;
            use_eq = v.use_eq;
            held = v.held;
          });
          keeps = omega arith;
          same = λ j far lt. (refl, refl);
        },
        refl,
      )

  alloc_all-After :
      (r : Receiver) (c n : ℕ)
      → Holding r.ring c n
      → r.ring.next_to_clean ≡ c
      → n < rx_desc_count
      → (a : After r.ring c n (alloc_all_rx_buffers r).ring 0) × ((alloc_all_rx_buffers
            r).ring.next_to_clean
          ≡ c)
        × (a.n' < rx_desc_count)
        × ((a.n' + 1 ≡ rx_desc_count)
            ⊎ ((s : p.Pool) × (p.take_buffer s ≡ (none, (alloc_all_rx_buffers r).pool))))
  unfolding alloc_all_rx_buffers alloc_rx_buffers
  alloc_all-After r c n v at less =
      let count =
        unused_count-past r.ring v.shape (omega (arith, v.use_eq))
          (omega (arith, at, v.index_in)) in
      let free : unused_count r.ring + n + 1 ≡ rx_desc_count =
        omega (arith, count, at, v.use_eq, v.index_in) in
      elim (Bool-cases (ltb 0 (unused_count r.ring))) [
        | inl more ↦
            let s =
              alloc_from-Refills (unused_count r.ring) r.ring.next_to_use r v.shape
                (omega (arith, v.use_eq)) (omega (arith, free)) in
            let (a, e) =
              Refills-After r.ring c n (unused_count r.ring) _ v (omega (arith, free)) s in
            rw more (
              a,
              s.clean_same ∙ at,
              omega (arith, e, free, s.at_most),
              elim s.whole [ inl full ↦ inl (omega (arith, e, full, free)) | inr out ↦ inr out ],
            )
        | inr full ↦
            let (a, e) = After-none r.ring c n v in
            rw full (a, at, omega (arith, e, less), inl (ground (arith, e, free, full)))
      ]

  -- What a call does to a ring with `n` held slots from `next_to_clean` on: it takes the first `k`
  -- descriptors, delivers their frames in order, and refills the ring unless the pool runs out.
  pub record Delivers (x : RxRing) (budget n : ℕ) (out : Received) : Type 0 where
    pub k : ℕ
    pub within : k ≤ budget
    pub all_done :
        (j : ℕ)
        → j < k
        → is_done (read_desc x.ring ((x.ring.next_to_clean + j) % rx_desc_count)) ≡ true
    pub stopped :
        (k ≡ budget)
        ⊎ (is_done (read_desc x.ring ((x.ring.next_to_clean + k) % rx_desc_count)) ≡ false)
    pub packets_eq :
        out.packets
        ≡ whole_frames x.crc_stripping x.is_discarding (slots_from x.ring x.ring.next_to_clean k)
    pub continues_eq :
        out.rx.is_discarding ≡ left_open x.is_discarding (slots_from x.ring x.ring.next_to_clean k)
    pub clean_eq : out.rx.ring.next_to_clean ≡ (x.ring.next_to_clean + k) % rx_desc_count
    pub after : After x.ring x.ring.next_to_clean n out.rx.ring k
    pub fewer : after.n' < rx_desc_count
    pub full :
        (after.n' + 1 ≡ rx_desc_count) ⊎ ((s : p.Pool) × (p.take_buffer s ≡ (none, out.pool)))

  -- At most 255 slots are held; or all 256 are, as in a new ring, and the call takes some but too
  -- few for a batch.
  abbrev pub Counted : RxRing → ℕ → ℕ → Type 0
  Counted x budget n =
      (n < rx_desc_count)
      ⊎ ((0 < budget)
          × (budget < rx_buffer_write)
          × (is_done (read_desc x.ring x.ring.next_to_clean) ≡ true))

  abbrev start : RxRing → io.World → p.Pool → Pass
  start x w pool = record {
    receiver = record { ring = x.ring; world = w; pool = pool };
    index = x.ring.next_to_clean;
    cleaned_count = 0;
    is_discarding = x.is_discarding;
    received = [];
  }

  finish :
      (x : RxRing) (w : io.World) (pool : p.Pool) (budget n bound : ℕ)
      → Holding x.ring x.ring.next_to_clean n
      → (r : Runs bound x.crc_stripping budget
          (start x w pool)
          n
          (clean_from x.crc_stripping budget (start x w pool)))
      → r.after.n' < rx_desc_count
      → Delivers x budget n (clean_rx_irq x w pool budget)
  unfolding clean_rx_irq
  finish x w pool budget n bound v r less =
      let s = clean_from x.crc_stripping budget (start x w pool) in
      let q = set_next_to_clean s.receiver.ring s.index in
      let (a, e) =
        recleaned-After s.receiver.ring s.index r.after.n' s.index
          (rw r.index_eq r.after.holding) in
      let here : (s.index + 0) % rx_desc_count ≡ s.index = omega (arith, r.index_eq) in
      let (b, clean, fewer, full) =
        alloc_all-After (record s.receiver { ring = q }) s.index a.n' (rw here at a.holding) refl
          (omega (arith, e, less)) in
      let (ab, eab) =
        After-join s.receiver.ring s.index r.after.n' q 0 _ 0 a s.index (sym here) b 0 refl in
      let (all, eall) =
        After-join x.ring x.ring.next_to_clean n s.receiver.ring r.k _ 0 r.after s.index r.index_eq
          ab r.k (omega arith) in
      record {
        k = r.k;
        within = r.within;
        all_done = r.all_done;
        stopped = r.stopped;
        packets_eq = r.received_eq;
        continues_eq = r.continues_eq;
        clean_eq = clean ∙ r.index_eq;
        after = all;
        fewer = omega (arith, fewer, eab, eall);
        full = elim full [ inl f ↦ inl (omega (arith, f, eab, eall)) | inr o ↦ inr o ];
      }

  -- `clean_rx_irq` on a ring whose slots from `next_to_clean` up to `next_to_use` hold buffers, one of
  -- them under a descriptor that the device has not completed, and of which at most 255 are held or
  -- the budget is below 16 and the first is done: it takes the descriptors that are done, up to the
  -- budget or the first that is not; it delivers, in order, the frames that lie in a single one of
  -- them without an error; every slot behind them keeps its buffer, and the ring is refilled up to
  -- 255 slots unless the pool runs out.
  pub clean_rx_irq-Delivers :
      (x : RxRing) (w : io.World) (pool : p.Pool) (budget n m : ℕ)
      → Holding x.ring x.ring.next_to_clean n
      → m < n
      → Waits x.ring x.ring.next_to_clean m
      → Counted x budget n
      → Delivers x budget n (clean_rx_irq x w pool budget)
  clean_rx_irq-Delivers x w pool budget n m v lt waits (inl few) =
      let (r, le) =
        clean_from-Runs 255 x.crc_stripping budget (start x w pool) n m (omega arith) v
          (omega arith) lt waits in
      finish x w pool budget n 255 v r (omega (arith, r.room))
  clean_rx_irq-Delivers x w pool budget n m v lt waits (inr (some_budget, small, done)) =
      let (r, le) =
        clean_from-Runs rx_desc_count x.crc_stripping budget (start x w pool) n m (omega arith) v
          (omega (arith, v.at_most)) lt waits in
      let took : 0 < r.k = elim r.stopped [
        | inl e ↦ omega (arith, e, some_budget)
        | inr w ↦ elim (lt_cases 0 r.k) [
          | inl some_taken ↦ some_taken
          | inr none_taken ↦
              let i : (x.ring.next_to_clean + r.k) % rx_desc_count ≡ x.ring.next_to_clean =
                omega (arith, none_taken, v.index_in) in
              absurd (false≢true (sym (rw i at w) ∙ done))
        ]
      ] in
      finish x w pool budget n rx_desc_count v r
        (omega (arith, r.room, took, r.count_eq (omega (arith, r.within))))
