-- ===== src/E1000e/Rx/Held.antt =====
-- The slots of the receive ring that hold a buffer, and how a call changes them.
use driver_workflow.Prelude.{
  ℕ, suc, ◌+◌, ◌-◌, ◌%◌, ◌≤◌, ◌<◌, ◌≡◌, ◌≢◌, refl, ◌∙◌, none, some, arith, set, length-set,
  get_or-set, subst, ==_false,
}
use driver_workflow.Dma.{Dma}
use driver_workflow.Pool.{RxPool}
use driver_workflow.E1000e.Regs.{rx_desc_count}
use driver_workflow.E1000e.Desc.{DescRing, buffer, read_desc}
use driver_workflow.E1000e.Desc.Ring.{IsRing, Same}

module _ ⦃d : Dma⦄ ⦃p : RxPool⦄ where
  -- From index `c` on, `n` slots hold a buffer, up to `next_to_use`.
  pub record Holding (q : DescRing p.RxBuffer) (c n : ℕ) : Type 0 where
    pub shape : IsRing q
    pub index_in : c < rx_desc_count
    pub at_most : n ≤ rx_desc_count
    pub use_eq : q.next_to_use ≡ (c + n) % rx_desc_count
    pub held : (j : ℕ) → j < n → (b : p.RxBuffer) × (buffer q ((c + j) % rx_desc_count) ≡ some b)

  -- From slot `c` on, `n` slots are held in `q`; in `q'` the first `skip` may be given up, and the
  -- others are as they were, with perhaps more behind them.
  pub record After (q : DescRing p.RxBuffer) (c n : ℕ) (q' : DescRing p.RxBuffer) (skip : ℕ)
      : Type 0 where
    pub n' : ℕ
    pub holding : Holding q' ((c + skip) % rx_desc_count) n'
    pub keeps : n ≤ skip + n'
    pub same : (j : ℕ) → skip ≤ j → j < n → Same q' q ((c + j) % rx_desc_count)

  pub After-join :
      (q : DescRing p.RxBuffer) (c n : ℕ) (q1 : DescRing p.RxBuffer) (s1 : ℕ)
      (q2 : DescRing p.RxBuffer) (s2 : ℕ)
      → (a : After q c n q1 s1) (c1 : ℕ) → c1 ≡ (c + s1) % rx_desc_count
      → (b : After q1 c1 a.n' q2 s2) → (s : ℕ) → s ≡ s1 + s2
      → (e : After q c n q2 s) × (e.n' ≡ b.n')
  After-join q c n q1 s1 q2 s2 a c1 at b s total = (
    record {
      n' = b.n';
      holding =
          let e : (c + s) % rx_desc_count ≡ (c1 + s2) % rx_desc_count = omega (arith, at, total) in
          rw e b.holding;
      keeps = omega (arith, a.keeps, b.keeps);
      same = λ j far lt.
          let (eb, ed) = a.same j (omega arith) lt in
          let (eb', ed') = b.same (j - s1) (omega arith) (omega (arith, a.keeps)) in
          let e : (c1 + (j - s1)) % rx_desc_count ≡ (c + j) % rx_desc_count = omega (arith, at) in
          (
            subst (λ k. buffer q2 k ≡ buffer q1 k) e eb' ∙ eb,
            subst (λ k. read_desc q2 k ≡ read_desc q1 k) e ed' ∙ ed,
          );
    },
    refl,
  )

  pub After-none :
      (q : DescRing p.RxBuffer) (c n : ℕ) → Holding q c n → (a : After q c n q 0) × (a.n' ≡ n)
  After-none q c n v = (
    record {
      n' = n;
      holding = let e : (c + 0) % rx_desc_count ≡ c = omega (arith, v.index_in) in rw e v;
      keeps = omega arith;
      same = λ j far lt. (refl, refl);
    },
    refl,
  )

  abbrev pub emptied : DescRing p.RxBuffer → ℕ → DescRing p.RxBuffer
  emptied q c = record q { buffers = set q.buffers c none }

  pub emptied-After :
      (q : DescRing p.RxBuffer) (c n : ℕ)
      → Holding q c (suc n)
      → (a : After q c (suc n) (emptied q c) 1) × (a.n' ≡ n)
  unfolding read_desc
  emptied-After q c n v = (
    record {
      n' = n;
      holding = record {
        shape = record {
          counted = v.shape.counted;
          sized = v.shape.sized;
          fits = v.shape.fits;
          slots = length-set q.buffers c none ∙ v.shape.slots;
        };
        index_in = omega arith;
        at_most = omega (arith, v.at_most);
        use_eq = omega (arith, v.use_eq);
        held = λ j lt.
            let (b, e) = v.held (suc j) (omega arith) in
            let i : ((c + 1) % rx_desc_count + j) % rx_desc_count ≡ (c + suc j) % rx_desc_count =
              omega arith in
            (b, rw i (other (suc j) (omega arith) (omega (arith, v.at_most)) ∙ e));
      };
      keeps = omega arith;
      same = λ j far lt. (other j far (omega (arith, v.at_most)), refl);
    },
    refl,
  )
    where
      other :
          (j : ℕ)
          → 1 ≤ j
          → j < rx_desc_count
          → buffer (emptied q c) ((c + j) % rx_desc_count) ≡ buffer q ((c + j) % rx_desc_count)
      other j far lt =
          let ne : c ≢ (c + j) % rx_desc_count = λ e. omega (arith, e, v.index_in) in
          get_or-set q.buffers c none ((c + j) % rx_desc_count) none
            (omega (arith, v.shape.slots, v.index_in))
          ∙ rw (==_false c ((c + j) % rx_desc_count) ne) refl
