-- ===== src/E1000e/Rx/Round.antt =====
-- One round of `clean_rx_irq`: the slots that it leaves alone, and what it delivers.
use driver_workflow.E1000e.Rx.Held.{Holding, After, After-join, After-none, emptied, emptied-After}
use driver_workflow.Prelude.{
  ℕ, suc, ◌+◌, ◌-◌, ◌%◌, ◌^◌, ◌≤◌, ◌<◌, ◌≡◌, inl, inr, refl, sym, ◌∙◌, Bool, true, not, ◌&&◌, false,
  Option, none, some, List, [], ◌∷◌, ◌++◌, arith, Bool-cases, if◌then◌else◌, length-set, leb,
  leb→le, subst, lt_cases,
}
use mathlib.Core.List.{append-nil}
use driver_workflow.Bits.{has}
use driver_workflow.Dma.{Dma}
use driver_workflow.Mmio.{Registers}
use driver_workflow.Pool.{RxPool}
use driver_workflow.E1000e.Regs.{
  rx_desc_count, rxdext_stat_eop, rxdext_err_frame_mask, rx_buffer_write,
}
use driver_workflow.E1000e.Desc.{DescRing, RxDescExt, advance_index, buffer, read_desc}
use driver_workflow.E1000e.Desc.Ring.{advance_index-mod}
use driver_workflow.E1000e.Rx.{
  Receiver, Pass, payload_len, replenish, handle, take_done, alloc_rx_buffers,
}
use driver_workflow.E1000e.Rx.Alloc.{Refills, alloc_from-Refills}

-- Whether the descriptor is the last of its frame.
abbrev pub ends : RxDescExt → Bool
ends e = has e.status_error rxdext_stat_eop

-- A descriptor that starts a frame, ends it and has no error.
abbrev pub is_whole : Bool → RxDescExt → Bool
is_whole continues e = (not continues && ends e) && not (has e.status_error rxdext_err_frame_mask)

module _ ⦃p : RxPool⦄ where
  abbrev pub frame_of : Bool → RxDescExt → Option p.RxBuffer → List p.RxBuffer
  frame_of crc_stripping e none = []
  frame_of crc_stripping e (some b) = p.set_payload_len b (payload_len crc_stripping e.length) ∷ []

module _ ⦃d : Dma⦄ ⦃p : RxPool⦄ ⦃io : Registers⦄ where
  pub Refills-After :
      {pool : p.Pool} (q : DescRing p.RxBuffer) (c n count : ℕ) (r : Receiver)
      → Holding q c n
      → count + n ≤ rx_desc_count
      → (s : Refills q pool q.next_to_use count r) → (a : After q c n r.ring 0) × (a.n' ≡ n + s.m)
  Refills-After q c n count r v room s = (
    record {
      n' = n + s.m;
      holding = record {
        shape = s.shape;
        index_in = omega arith;
        at_most = omega (arith, s.at_most);
        use_eq = omega (arith, s.use_eq, v.use_eq);
        held = every;
      };
      keeps = omega arith;
      same = λ j far lt.
          s.others ((c + j) % rx_desc_count) (omega arith)
            (omega (arith, v.use_eq, s.at_most, v.index_in));
    },
    refl,
  )
    where
      every :
          (j : ℕ)
          → j < n + s.m
          → (b : p.RxBuffer) × (buffer r.ring (((c + 0) % rx_desc_count + j) % rx_desc_count)
              ≡ some b)
      every j lt =
          let i : ((c + 0) % rx_desc_count + j) % rx_desc_count ≡ (c + j) % rx_desc_count =
            omega arith in
          rw i (elim (lt_cases j n) [
            | inl old ↦
                let (b, e) = v.held j old in
                let (eb, _) =
                  s.others ((c + j) % rx_desc_count) (omega arith)
                    (omega (arith, v.use_eq, s.at_most, v.index_in)) in
                (b, eb ∙ e)
            | inr new ↦
                let (b, e, _) = s.filled (j - n) (omega arith) in
                let k : (q.next_to_use + (j - n)) % rx_desc_count ≡ (c + j) % rx_desc_count =
                  omega (arith, v.use_eq) in
                (b, subst (λ (x : ℕ). buffer r.ring x ≡ some b) k e)
          ])

  -- At most `bound` slots are cleaned and not refilled, or held.
  pub replenish-After :
      (bound : ℕ) (s : Pass) (n : ℕ)
      → bound ≤ rx_desc_count
      → Holding s.receiver.ring s.index n
      → 0 < n
      → s.cleaned_count + n ≤ bound
      → (a : After s.receiver.ring s.index n (replenish s).receiver.ring 0) × ((replenish
              s).cleaned_count
            + a.n'
          ≤ bound)
        × (s.cleaned_count < rx_buffer_write → (replenish s).cleaned_count ≡ s.cleaned_count)
        × ((replenish s).index ≡ s.index)
        × ((replenish s).is_discarding ≡ s.is_discarding)
        × ((replenish s).received ≡ s.received)
  unfolding replenish alloc_rx_buffers
  replenish-After bound s n small v some_held room =
      elim (Bool-cases (leb rx_buffer_write s.cleaned_count)) [
        | inr few ↦
            let (a, e) = After-none s.receiver.ring s.index n v in
            rw few (a, omega (arith, e, room), λ h. refl, refl, refl, refl)
        | inl many ↦
            let r =
              alloc_from-Refills s.cleaned_count s.receiver.ring.next_to_use s.receiver v.shape
                (omega (arith, v.use_eq)) (omega arith) in
            let (a, e) =
              Refills-After s.receiver.ring s.index n s.cleaned_count _ v (omega arith) r in
            rw many (
              a,
              omega (arith, e, r.at_most),
              λ h. absurd (omega (arith, leb→le rx_buffer_write s.cleaned_count many)),
              refl,
              refl,
              refl,
            )
      ]

  -- What a round does to the pass.
  pub record Round (bound : ℕ) (crc_stripping : Bool) (s : Pass) (n : ℕ) (s' : Pass) : Type 0 where
    pub after : After s.receiver.ring s.index n s'.receiver.ring 1
    pub room : s'.cleaned_count + after.n' ≤ bound
    pub count_eq : s.cleaned_count + 1 < rx_buffer_write → s'.cleaned_count ≡ s.cleaned_count + 1
    pub index_eq : s'.index ≡ (s.index + 1) % rx_desc_count
    pub continues_eq : s'.is_discarding ≡ not (ends (read_desc s.receiver.ring s.index))
    pub received_eq :
        s'.received
        ≡ s.received
          ++ (if is_whole s.is_discarding (read_desc s.receiver.ring s.index)
              then frame_of crc_stripping
                  (read_desc s.receiver.ring s.index)
                  (buffer s.receiver.ring s.index)
              else [])

  -- A round hands a pass with its descriptor counted to the batch replenishment.
  abbrev next_pass : Pass → ℕ → Bool → List p.RxBuffer → Pass
  next_pass s i continues received = record s {
    index = i;
    is_discarding = continues;
    received = received;
  }

  record Handled (crc_stripping : Bool) (s : Pass) (e : RxDescExt) (b : p.RxBuffer) (i : ℕ)
      : Type 0 where
    continues : Bool
    received : List p.RxBuffer
    result : handle crc_stripping s e (some b) ≡ replenish (next_pass s i continues received)
    continues_eq : continues ≡ not (ends e)
    received_eq :
        received
        ≡ s.received
          ++ (if is_whole s.is_discarding e then frame_of crc_stripping e (some b) else [])

  handle-Handled :
      (crc_stripping : Bool) (s : Pass) (e : RxDescExt) (b : p.RxBuffer) (i : ℕ)
      → advance_index s.receiver.ring s.index ≡ i
      → Handled crc_stripping s e b i
  unfolding handle
  handle-Handled crc_stripping s e b i at = elim (Bool-cases (ends e)) [
    | inr more ↦ record {
      continues = true;
      received = s.received;
      result = elim (Bool-cases s.is_discarding) [
        | inl x ↦ rw (more, x, at) refl
        | inr x ↦ rw (more, x, at) refl
      ];
      continues_eq = rw more refl;
      received_eq = elim (Bool-cases s.is_discarding) [
        | inl x ↦ rw (more, x) (sym (append-nil s.received))
        | inr x ↦ rw (more, x) (sym (append-nil s.received))
      ];
    }
    | inl last ↦ elim (Bool-cases s.is_discarding) [
      | inl middle ↦ record {
        continues = false;
        received = s.received;
        result = rw (last, middle, at) refl;
        continues_eq = rw last refl;
        received_eq = rw (last, middle) (sym (append-nil s.received));
      }
      | inr fresh ↦ elim (Bool-cases (has e.status_error rxdext_err_frame_mask)) [
        | inl bad ↦ record {
          continues = s.is_discarding;
          received = s.received;
          result = rw (last, fresh, bad, at) refl;
          continues_eq = rw last fresh;
          received_eq = rw (last, fresh, bad) (sym (append-nil s.received));
        }
        | inr good ↦ record {
          continues = s.is_discarding;
          received = s.received ++ frame_of crc_stripping e (some b);
          result = rw (last, fresh, good, at) refl;
          continues_eq = rw last fresh;
          received_eq = rw (last, fresh, good) refl;
        }
      ]
    ]
  ]

  pub take_done-Round :
      (bound : ℕ) (crc_stripping : Bool) (s : Pass) (n : ℕ)
      → bound ≤ rx_desc_count
      → Holding s.receiver.ring s.index (suc (suc n))
      → s.cleaned_count + suc (suc n) ≤ bound
      → Round bound crc_stripping s (suc (suc n)) (take_done crc_stripping s)
  unfolding take_done
  take_done-Round bound crc_stripping s n small v room =
      let c = s.index in
      let q = s.receiver.ring in
      let (b, kept) = v.held 0 (omega arith) in
      let i : (c + 0) % rx_desc_count ≡ c = omega (arith, v.index_in) in
      let kept' : buffer q c ≡ some b = subst (λ k. buffer q k ≡ some b) i kept in
      let (a, left) = emptied-After q c (suc n) v in
      let t : Pass = record s {
        receiver = record s.receiver { ring = emptied q c };
        cleaned_count = (s.cleaned_count + 1) % 2 ^ 16;
      } in
      let h = handle-Handled crc_stripping t (read_desc q c) b ((c + 1) % rx_desc_count) (
        advance_index-mod (emptied q c) c
          (record {
            counted = v.shape.counted;
            sized = v.shape.sized;
            fits = v.shape.fits;
            slots = length-set q.buffers c none ∙ v.shape.slots;
          })
          v.index_in) in
      let (a', room', count', index', continues', received') =
        replenish-After bound (next_pass t ((c + 1) % rx_desc_count) h.continues h.received) a.n'
          small a.holding (omega (arith, left)) (omega (arith, left, room)) in
      let whole = After-join q c (suc (suc n)) (emptied q c) 1 _ 0 a _ refl a' 1 refl in
      rw (kept', h.result)
        (record {
          after = whole.0;
          room = omega (arith, whole.1, room');
          count_eq = λ h. omega (arith, count' (omega arith));
          index_eq = index';
          continues_eq = continues' ∙ h.continues_eq;
          received_eq = received' ∙ h.received_eq ∙ rw kept' refl;
        })
