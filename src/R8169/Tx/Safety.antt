-- ===== src/R8169/Tx/Safety.antt =====
-- The transmit ring as a queue of frames, and any interleaving of the driver's calls with the
-- hardware's completions.
use driver_workflow.Prelude.{
  ℕ, zero, suc, ◌+◌, ◌%◌, ◌^◌, ◌≤◌, ◌<◌, ◌≡◌, ap, ◌∙◌, subst, true, false, none, some, List, [],
  ◌∷◌, ◌++◌, arith, get_or, length, replicate, ◌-◌, inl, inr,
}
use native.Mathlib.Decide.{ℕ_discrete, dec_lt}
use driver_workflow.Bits.{has, bit}
use driver_workflow.Dma.{Dma}
use driver_workflow.Mmio.{Mmio}
use driver_workflow.R8169.Regs.{desc_own, num_tx_desc, tx_poll, npq}
use driver_workflow.R8169.Desc.{RawDesc, DescRing, TxSlot, empty_slot}
use driver_workflow.R8169.Desc.Entries.{entry}
use driver_workflow.R8169.Desc.Entries.Access.{Updates, Updates-IsRing}
use driver_workflow.R8169.Tx.{
  TxRing, TxDmaBuf, TxCompleteStats, new_ring, doorbell, start_xmit, rtl_tx, tx_clear,
}
use driver_workflow.R8169.Tx.Inv.{IsValid, pending, position, owned, Holds, Changes-slot_self}
use driver_workflow.R8169.Tx.Frame.{
  IsFilled, pad_packet-eq, Describes, frame_desc-Describes, sent_slot,
}
use driver_workflow.R8169.Tx.Xmit.{Queues, start_xmit_cases, start_xmit-IsValid}
use driver_workflow.R8169.Tx.Reap.{window, window-set, in_flight, rtl_tx-Reaps}
use driver_workflow.R8169.Tx.Clear.{tx_clear-IsValid, new_ring-IsValid}

module _ ⦃d : Dma⦄ where
  window_snoc :
      (slots : List TxSlot) (dirty n : ℕ)
      → window slots dirty (suc n)
        ≡ window slots dirty n
          ++ (get_or slots ((dirty + n) % 2 ^ 32 % num_tx_desc) empty_slot ∷ [])
  window_snoc slots dirty zero = ap (λ k. get_or slots k empty_slot ∷ []) (omega arith)
  window_snoc slots dirty (suc n) = ap (◌∷◌ (get_or slots (dirty % num_tx_desc) empty_slot)) (
      window_snoc slots ((dirty + 1) % 2 ^ 32) n
      ∙ ap (λ k. window slots ((dirty + 1) % 2 ^ 32) n ++ (get_or slots k empty_slot ∷ []))
          (omega arith))

  -- Queueing a frame puts it behind all frames in flight, and changes none of them.
  pub in_flight-Queues :
      {t u : TxRing} {b : _}
      → IsValid t
      → pending t + 2 ≤ num_tx_desc
      → Queues t b u
      → in_flight u ≡ in_flight t ++ (sent_slot b ∷ [])
  in_flight-Queues {t} {u} {b} v space q =
      let i = t.cur_tx % num_tx_desc in
      let more : pending u ≡ suc (pending t) =
        omega (arith, q.cur_next, q.dirty_same, v.cur_fits, v.dirty_fits) in
      let at_cur : (u.dirty_tx + pending t) % 2 ^ 32 % num_tx_desc ≡ i =
        omega (arith, q.dirty_same, v.cur_fits, v.dirty_fits) in
      let kept : window u.slots u.dirty_tx (pending t) ≡ in_flight t =
        rw (q.changes.slots_changes, q.dirty_same)
          (window-set t.slots i (sent_slot b) t.dirty_tx (pending t) v.slots_count (omega arith)
            v.dirty_fits (omega (arith, v.cur_fits, v.dirty_fits))) in
      ap (window u.slots u.dirty_tx) more
      ∙ window_snoc u.slots u.dirty_tx (pending t)
      ∙ rw (at_cur, kept, Changes-slot_self v q.changes (omega arith))

module _ ⦃d : Dma⦄ ⦃io : Mmio⦄ where
  -- When `start_xmit` on a valid ring returns `Ok`, a buffer holds the packet, followed by zeros up
  -- to 60 bytes if it is shorter; the descriptor at `cur_tx` is the hardware's, is marked as a whole
  -- frame, and as the end of the ring at the last index alone, and has that buffer's length and
  -- address; the frame stands behind all frames in flight, which are as before; and the one register
  -- write is that of the doorbell.
  pub start_xmit-appends :
      (t : TxRing) (w : io.World) (h : d.Heap) (packet : List ℕ)
      → IsValid t
      → (start_xmit t w h packet).error ≡ none
      → let s = start_xmit t w h packet in
        let i = t.cur_tx % num_tx_desc in
        (b : TxDmaBuf) × IsFilled (packet ++ replicate (60 - length packet) 0) b
        × Describes b i (entry s.tx.ring i)
        × (in_flight s.tx
            ≡ in_flight t ++ (record { len = b.len; is_last = true; dma_buf = some b.stream } ∷ []))
        × (s.world ≡ (io.write w 1 tx_poll npq).1)
  unfolding doorbell
  start_xmit-appends t w h packet v ok = elim (start_xmit_cases t w h packet v) [
    | inl (e, _, _, _) ↦ cc e
    | inr (inl (e, _, _, _, _)) ↦ cc e
    | inr (inr (_, g)) ↦
        let i = t.cur_tx % num_tx_desc in
        let len_eq : g.buf.len % 2 ^ 32 ≡ g.buf.len = omega (arith, g.filled.len_le) in
        (
          g.buf,
          subst (λ bytes. IsFilled bytes g.buf) (pad_packet-eq packet) g.filled,
          rw g.queued.changes.ring_changes.written (frame_desc-Describes g.buf i g.filled.len_le),
          in_flight-Queues v g.had_room g.queued
              ∙ ap (λ (n : ℕ). in_flight t ++ (record (sent_slot g.buf) { len = n } ∷ [])) len_eq,
          g.rung,
        )
  ]

  -- The hardware giving back a descriptor that it owns: it clears the ownership bit and may write the
  -- rest of `opts1` and `opts2`, but for the end mark.
  pub record Completes (t u : TxRing) : Type 0 where
    pub index : ℕ
    pub desc : RawDesc
    pub ring : DescRing
    pub index_in : index < num_tx_desc
    pub was_owned : owned t.ring index ≡ true
    pub update : Updates t.ring index desc ring
    pub released : has desc.opts1 desc_own ≡ false
    pub end_same : bit desc.opts1 30 ≡ bit (entry t.ring index).opts1 30
    pub lo_same : desc.addr_lo ≡ (entry t.ring index).addr_lo
    pub hi_same : desc.addr_hi ≡ (entry t.ring index).addr_hi
    pub after : u ≡ record t { ring = ring }

  -- A call of the driver, or a completion.
  pub data Step (t u : TxRing) : Type 0 where
    sends :
        (w : io.World) (h : d.Heap) (packet : List ℕ) → u ≡ (start_xmit t w h packet).tx → Step t u
    reaps : (s : TxCompleteStats) → rtl_tx t ≡ some (u, s) → Step t u
    clears : u ≡ tx_clear t → Step t u
    completes : Completes t u → Step t u

  pub data Reach (t : TxRing) : TxRing → Type 0 where
    here : Reach t t
    next : {u v : TxRing} → Reach t u → Step u v → Reach t v

  completes-IsValid :
      (t : TxRing) (i : ℕ) (e : RawDesc) (r : DescRing)
      → IsValid t
      → Updates t.ring i e r
      → has e.opts1 desc_own ≡ false
      → bit e.opts1 30 ≡ bit (entry t.ring i).opts1 30
      → e.addr_lo ≡ (entry t.ring i).addr_lo
      → e.addr_hi ≡ (entry t.ring i).addr_hi
      → IsValid (record t { ring = r })
  completes-IsValid t i e r v u free ends lo hi = record {
    is_ring = Updates-IsRing u v.is_ring;
    slots_count = v.slots_count;
    cur_fits = v.cur_fits;
    dirty_fits = v.dirty_fits;
    room = v.room;
    held = λ j hj p.
        let g = v.held j hj p in
        elim (ℕ_discrete j i) [
          | yes same ↦ record {
            buf = g.buf;
            last = g.last;
            kept = g.kept;
            addr_lo_eq = rw (same, u.written, lo, ← same) g.addr_lo_eq;
            addr_hi_eq = rw (same, u.written, hi, ← same) g.addr_hi_eq;
          }
          | no ne ↦ record {
            buf = g.buf;
            last = g.last;
            kept = g.kept;
            addr_lo_eq = rw (u.others_kept j ne) g.addr_lo_eq;
            addr_hi_eq = rw (u.others_kept j ne) g.addr_hi_eq;
          }
        ];
    vacant = v.vacant;
    unowned = λ j hj p. elim (ℕ_discrete j i) [
      | yes same ↦ rw (same, u.written) free
      | no ne ↦ rw (u.others_kept j ne) (v.unowned j hj p)
    ];
    ended = λ j hj. elim (ℕ_discrete j i) [
      | yes same ↦ rw (same, u.written, ends, ← same) (v.ended j hj)
      | no ne ↦ rw (u.others_kept j ne) (v.ended j hj)
    ];
  }

  pub Completes-IsValid : {t u : TxRing} → Completes t u → IsValid t → IsValid u
  Completes-IsValid {t} c v = rw c.after (
      completes-IsValid t c.index c.desc c.ring v c.update c.released c.end_same c.lo_same
        c.hi_same)

  Step-IsValid : {t u : TxRing} → Step t u → IsValid t → IsValid u
  Step-IsValid {t} (sends w h packet e) v = rw e (start_xmit-IsValid t w h packet v)
  Step-IsValid {t} {u} (reaps s e) v =
      let (out, e', r) = rtl_tx-Reaps t v in
      let same : out.0 ≡ u = ground (arith, e, e') in subst IsValid same r.valid
  Step-IsValid {t} (clears e) v = rw e (tx_clear-IsValid t v).0
  Step-IsValid (completes c) v = Completes-IsValid c v

  pub Reach-IsValid : {t u : TxRing} → Reach t u → IsValid t → IsValid u
  Reach-IsValid here v = v
  Reach-IsValid (next r s) v = Step-IsValid s (Reach-IsValid r v)

  -- A descriptor that the hardware owns is in flight.
  pub Holds-owned :
      (u : TxRing) (i : ℕ) → IsValid u → i < num_tx_desc → owned u.ring i ≡ true → Holds u i
  Holds-owned u i v hi own = elim (dec_lt (position u i) (pending u)) [
    | yes inside ↦ v.held i hi inside
    | no outside ↦ cc (v.unowned i hi (omega arith))
  ]

  -- DMA safety: from the ring that `TxRing::new` hands out on, and however the driver's calls and
  -- the hardware's completions interleave, a descriptor that the hardware owns holds the address of
  -- a buffer that the driver keeps alive.
  pub owned-Holds :
      (h : d.Heap) (t u : TxRing) (i : ℕ)
      → (new_ring h).0 ≡ some t
      → Reach t u
      → i < num_tx_desc
      → owned u.ring i ≡ true
      → Holds u i
  owned-Holds h t u i e r hi own =
      Holds-owned u i (Reach-IsValid r (new_ring-IsValid h t e).0) hi own
