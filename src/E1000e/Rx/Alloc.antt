-- ===== src/E1000e/Rx/Alloc.antt =====
-- `alloc_rx_buffers`: which slots it refills.
use driver_workflow.Prelude.{
  ℕ, zero, suc, ◌+◌, ◌%◌, ◌≤◌, ◌<◌, ◌≡◌, ◌⊎◌, inl, inr, refl, sym, ap, ◌∙◌, Bool, Option, none,
  some, arith, get_or-set, if◌then◌else◌,
}
use driver_workflow.Dma.{Dma}
use driver_workflow.Mmio.{Registers}
use driver_workflow.Pool.{RxPool}
use driver_workflow.E1000e.Regs.{rx_desc_count}
use driver_workflow.E1000e.Desc.{DescRing, advance_index, read_desc, buffer}
use driver_workflow.E1000e.Desc.Ring.{
  IsRing, Same, Filled, past, advance_index-mod, refilled, refilled-IsRing, refilled-Filled,
  refilled-Same,
}
use driver_workflow.E1000e.Rx.{Receiver, refill_slot, alloc_from}

module _ ⦃d : Dma⦄ ⦃p : RxPool⦄ ⦃io : Registers⦄ where
  -- The buffer that the pool gives after `n` others.
  abbrev pub given : ℕ → p.Pool → Option p.RxBuffer
  given zero pool = (p.take_buffer pool).0
  given (suc n) pool = given n (p.take_buffer pool).1

  -- From index `i` on, `m` slots of the ring are refilled, of `n` asked for; fewer only when the
  -- pool runs out, with the buffers that the pool gives, in their order. Nothing else in the ring changes but `next_to_use`.
  pub record Refills (q : DescRing p.RxBuffer) (pool : p.Pool) (i n : ℕ) (r : Receiver)
      : Type 0 where
    pub m : ℕ
    pub at_most : m ≤ n
    pub shape : IsRing r.ring
    pub use_eq : r.ring.next_to_use ≡ (i + m) % rx_desc_count
    pub clean_same : r.ring.next_to_clean ≡ q.next_to_clean
    pub filled : (j : ℕ) → j < m → Filled r.ring ((i + j) % rx_desc_count)
    pub given_eq : (j : ℕ) → j < m → buffer r.ring ((i + j) % rx_desc_count) ≡ given j pool
    pub ended : (m ≡ n) ⊎ (given m pool ≡ none)
    pub others : (k : ℕ) → k < rx_desc_count → m ≤ past i k → Same r.ring q k
    pub whole : (m ≡ n) ⊎ ((s : p.Pool) × (p.take_buffer s ≡ (none, r.pool)))

  Refills-more :
      (q : DescRing p.RxBuffer) (pool pool' : p.Pool) (i n : ℕ) (b : p.RxBuffer) (r : Receiver)
      → p.take_buffer pool ≡ (some b, pool')
      → IsRing q
      → i < rx_desc_count
      → suc n < rx_desc_count
      → Refills (refilled q i b) pool' ((i + 1) % rx_desc_count) n r
      → Refills q pool i (suc n) r
  Refills-more q pool pool' i n b r took v h less s = record {
    m = suc s.m;
    at_most = omega (arith, s.at_most);
    shape = s.shape;
    use_eq = omega (arith, s.use_eq);
    clean_same = s.clean_same;
    filled = every;
    given_eq = put;
    ended = elim s.ended [
      | inl e ↦ inl (ap suc e)
      | inr dry ↦ inr (ap (λ (t : Option p.RxBuffer × p.Pool). given s.m t.1) took ∙ dry)
    ];
    others = rest;
    whole = elim s.whole [ inl e ↦ inl (ap suc e) | inr o ↦ inr o ];
  }
    where
      every : (j : ℕ) → j < suc s.m → Filled r.ring ((i + j) % rx_desc_count)
      every zero lt =
          let (b', kept, fresh) = refilled-Filled q i b v h in
          let (eb, ed) = s.others i h (omega (arith, s.at_most)) in
          let e : (i + 0) % rx_desc_count ≡ i = omega arith in rw e (b', eb ∙ kept, rw ed fresh)
      every (suc j) lt =
          let e : (i + suc j) % rx_desc_count ≡ ((i + 1) % rx_desc_count + j) % rx_desc_count =
            omega arith in
          rw e (s.filled j (omega arith))

      put : (j : ℕ) → j < suc s.m → buffer r.ring ((i + j) % rx_desc_count) ≡ given j pool
      put zero lt =
          let (eb, _) = s.others i h (omega (arith, s.at_most)) in
          let e : (i + 0) % rx_desc_count ≡ i = omega arith in
          ap (buffer r.ring) e
          ∙ eb
          ∙ ground (arith, get_or-set q.buffers i (some b) i none (omega (arith, v.slots)))
          ∙ sym (ap (λ (t : Option p.RxBuffer × p.Pool). t.0) took)
      put (suc j) lt =
          let e : (i + suc j) % rx_desc_count ≡ ((i + 1) % rx_desc_count + j) % rx_desc_count =
            omega arith in
          ap (buffer r.ring) e
          ∙ s.given_eq j (omega arith)
          ∙ sym (ap (λ (t : Option p.RxBuffer × p.Pool). given j t.1) took)

      rest : (k : ℕ) → k < rx_desc_count → suc s.m ≤ past i k → Same r.ring q k
      rest k lt far =
          let (eb, ed) = s.others k lt (omega arith) in
          let (eb', ed') = refilled-Same q i b k v h (grind arith) in (eb ∙ eb', ed ∙ ed')

  Refills-none :
      (q : DescRing p.RxBuffer) (pool : p.Pool) (i n : ℕ) (r : Receiver)
      → IsRing q
      → i < rx_desc_count
      → (n ≡ 0) ⊎ (p.take_buffer pool ≡ (none, r.pool))
      → r.ring ≡ record q { next_to_use = i }
      → Refills q pool i n r
  unfolding read_desc
  Refills-none q pool i n r v h why e = record {
    m = 0;
    at_most = omega arith;
    shape = rw e (record { counted = v.counted; sized = v.sized; fits = v.fits; slots = v.slots });
    use_eq = rw e (omega arith);
    clean_same = rw e refl;
    filled = λ j lt. elim lt [ ];
    given_eq = λ j lt. elim lt [ ];
    ended = elim why [
      | inl z ↦ inl (sym z)
      | inr dry ↦ inr (ap (λ (t : Option p.RxBuffer × p.Pool). t.0) dry)
    ];
    others = λ k lt far. rw e (refl, refl);
    whole = elim why [ inl z ↦ inl (sym z) | inr o ↦ inr (pool, o) ];
  }

  pub alloc_from-Refills :
      (n i : ℕ) (r : Receiver)
      → IsRing r.ring
      → i < rx_desc_count
      → n < rx_desc_count
      → Refills r.ring r.pool i n (alloc_from n i r)
  unfolding alloc_from refill_slot
  alloc_from-Refills zero i r v h less = Refills-none r.ring r.pool i 0 _ v h (inl refl) refl
  alloc_from-Refills (suc n) i r v h less =
      go (λ r' v'. alloc_from-Refills n ((i + 1) % rx_desc_count) r' v' (omega arith) (omega arith))
        (p.take_buffer r.pool) refl
    where
      after : Bool × Receiver → Receiver
      after (okay, r') =
          if okay
          then alloc_from n (advance_index r'.ring i) r'
          else record r' { ring = record r'.ring { next_to_use = i } }

      go :
          ((r' : Receiver)
            → IsRing r'.ring
            → Refills r'.ring r'.pool
                ((i + 1) % rx_desc_count)
                n
                (alloc_from n ((i + 1) % rx_desc_count) r'))
          → (t : Option p.RxBuffer × p.Pool) → p.take_buffer r.pool ≡ t
          → Refills r.ring r.pool i (suc n) (after (refill_slot r.ring i r.world t))
      go more (none, pool) e = Refills-none r.ring r.pool i (suc n) _ v h (inr e) refl
      go more (some b, pool) e =
          let v' = refilled-IsRing r.ring i b v in
          rw (advance_index-mod (refilled r.ring i b) i v' h)
            (Refills-more r.ring r.pool pool i n b _ e v h less (more _ v'))
