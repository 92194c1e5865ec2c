-- ===== src/E1000/Tx/Inv.antt =====
-- The invariant of the transmit ring, and the ring after one slot is taken or given back.
use native.Mathlib.Decide.{ℕ_discrete}
use driver_workflow.Prelude.{
  ℕ, zero, suc, ◌+◌, ◌-◌, ◌*◌, ◌%◌, ◌^◌, ◌≤◌, ◌<◌, ◌≡◌, ◌≢◌, refl, sym, ap, ◌∙◌, Option, none, some,
  List, [], ◌∷◌, ◌++◌, arith, length, get_or, set, length-set, get_or-set,
}
use driver_workflow.Dma.{Dma}
use driver_workflow.E1000.Desc.{DescRing, advance_use, advance_clean}
use driver_workflow.E1000.Desc.Index.{IsInRing, in_use, in_use-advance_use, in_use-advance_clean}
use driver_workflow.E1000.Tx.{TxBufferInfo, TxRing, read_desc, tx_desc_count, free_slot}

-- How far a descriptor lies behind the oldest in use.
abbrev pub position : DescRing → ℕ → ℕ
position r i = (i + tx_desc_count - r.next_to_clean) % tx_desc_count

in_use-mod :
    (r : DescRing)
    → IsInRing r
    → r.count ≡ tx_desc_count
    → in_use r ≡ (r.next_to_use + tx_desc_count - r.next_to_clean) % tx_desc_count
in_use-mod r v e = ground (arith, v.use_in, v.clean_in)

module _ ⦃d : Dma⦄ where
  abbrev pub buffer_at : TxRing → ℕ → Option TxBufferInfo
  buffer_at t i = get_or t.buffers i none

  -- The slot keeps the buffer alive whose address the descriptor holds.
  pub record Holds (t : TxRing) (i : ℕ) : Type 0 where
    pub info : TxBufferInfo
    pub kept : buffer_at t i ≡ some info
    pub addr_eq : (read_desc t.desc_dma i).buffer_addr ≡ d.daddr info.dma_stream % 2 ^ 64

  pub record IsValid (t : TxRing) : Type 0 where
    pub fits : tx_desc_count * 16 ≤ d.size t.desc_dma
    pub counted : t.ring.count ≡ tx_desc_count
    pub in_ring : IsInRing t.ring
    pub buffers_count : length t.buffers ≡ tx_desc_count
    pub cmd_fits : t.txd_cmd < 2 ^ 8
    pub held : (i : ℕ) → i < tx_desc_count → position t.ring i < in_use t.ring → Holds t i
    pub vacant :
        (i : ℕ) → i < tx_desc_count → in_use t.ring ≤ position t.ring i → buffer_at t i ≡ none

  -- The buffers in flight, oldest first.
  abbrev pub window : List (Option TxBufferInfo) → ℕ → ℕ → List (Option TxBufferInfo)
  window bs i zero = []
  window bs i (suc n) = get_or bs i none ∷ window bs ((i + 1) % tx_desc_count) n

  abbrev pub in_flight : TxRing → List (Option TxBufferInfo)
  in_flight t = window t.buffers t.ring.next_to_clean (in_use t.ring)

  -- A slot outside the window may change.
  pub window-set :
      (bs : List (Option TxBufferInfo)) (i : ℕ) (s : Option TxBufferInfo) (c n : ℕ)
      → length bs ≡ tx_desc_count
      → i < tx_desc_count
      → c < tx_desc_count
      → n ≤ (i + tx_desc_count - c) % tx_desc_count
      → window (set bs i s) c n ≡ window bs c n
  window-set bs i s c zero e hi hc out = refl
  window-set bs i s c (suc n) e hi hc out = ground (
    arith,
    get_or-set bs i s c none,
    window-set bs i s ((c + 1) % tx_desc_count) n e hi (omega arith) (omega arith),
  )

  -- One more slot at the end of the window.
  pub window-snoc :
      (bs : List (Option TxBufferInfo)) (c n u : ℕ)
      → c < tx_desc_count
      → u ≡ (c + n) % tx_desc_count
      → window bs c (suc n) ≡ window bs c n ++ (get_or bs u none ∷ [])
  window-snoc bs c zero u hc e =
      let same : u ≡ c = omega arith in ap (λ (k : ℕ). get_or bs k none ∷ []) (sym same)
  window-snoc bs c (suc n) u hc e =
      ap (◌∷◌ (get_or bs c none))
        (window-snoc bs ((c + 1) % tx_desc_count) n u (omega arith) (omega arith))

  -- The ring after the slot at `next_to_use` is filled, and after the oldest one is emptied.
  abbrev pub filled : TxRing → d.Mem → TxBufferInfo → TxRing
  filled t m s = record t {
    desc_dma = m;
    buffers = set t.buffers t.ring.next_to_use (some s);
    ring = advance_use t.ring;
  }

  pub filled-IsValid :
      (t : TxRing) (m : d.Mem) (s : TxBufferInfo)
      → IsValid t
      → in_use t.ring + 1 < tx_desc_count
      → d.size m ≡ d.size t.desc_dma
      → (read_desc m t.ring.next_to_use).buffer_addr ≡ d.daddr s.dma_stream % 2 ^ 64
      → ((j : ℕ) → j ≢ t.ring.next_to_use → read_desc m j ≡ read_desc t.desc_dma j)
      → IsValid (filled t m s) × (in_flight (filled t m s) ≡ in_flight t ++ (some s ∷ []))
  unfolding advance_use
  filled-IsValid t m s v room es ew eo =
      let i = t.ring.next_to_use in
      let c = t.ring.next_to_clean in
      let i_in : i < tx_desc_count = omega (arith, v.in_ring.use_in, v.counted) in
      let c_in : c < tx_desc_count = omega (arith, v.in_ring.clean_in, v.counted) in
      let (vr, more) = in_use-advance_use t.ring v.in_ring (omega (arith, v.counted)) in
      let now = in_use-mod t.ring v.in_ring v.counted in
      let read =
        λ (j : ℕ). get_or-set t.buffers i (some s) j none (omega (arith, v.buffers_count)) in
      let put : get_or (set t.buffers i (some s)) i none ≡ some s = read i ∙ ground arith in
      let old : (j : ℕ) → j ≢ i → get_or (set t.buffers i (some s)) j none ≡ buffer_at t j =
        λ j ne. read j ∙ ground arith in
      let one_more : in_use (advance_use t.ring) ≡ suc (in_use t.ring) = omega (arith, more) in
      let same =
        window-set t.buffers i (some s) c (in_use t.ring) v.buffers_count i_in c_in
          (omega (arith, now)) in
      (
        record {
          fits = omega (arith, v.fits, es);
          counted = v.counted;
          in_ring = vr;
          buffers_count = length-set t.buffers i (some s) ∙ v.buffers_count;
          cmd_fits = v.cmd_fits;
          held = λ j hj p. elim (ℕ_discrete j i) [
            | yes same ↦ rw same (record { info = s; kept = put; addr_eq = ew })
            | no ne ↦
                let g = v.held j hj (omega (arith, p, more)) in
                record { info = g.info; kept = old j ne ∙ g.kept; addr_eq = rw (eo j ne) g.addr_eq }
          ];
          vacant = λ j hj p.
              let ne : j ≢ i = omega (arith, p, more) in
              old j ne ∙ v.vacant j hj (omega (arith, p, more));
        },
        ap (window (set t.buffers i (some s)) c) one_more
            ∙ window-snoc (set t.buffers i (some s)) c (in_use t.ring) i c_in (omega (arith, now))
            ∙ rw (same, put) refl,
      )

  pub freed-IsValid :
      (t : TxRing)
      → IsValid t
      → 0 < in_use t.ring
      → IsValid (free_slot t)
        × (in_flight t ≡ buffer_at t t.ring.next_to_clean ∷ in_flight (free_slot t))
  unfolding free_slot advance_clean
  freed-IsValid t v some_used =
      let i = t.ring.next_to_clean in
      let i_in : i < tx_desc_count = omega (arith, v.in_ring.clean_in, v.counted) in
      let (vr, less) = in_use-advance_clean t.ring v.in_ring some_used in
      let now = in_use-mod t.ring v.in_ring v.counted in
      let read = λ (j : ℕ). get_or-set t.buffers i none j none (omega (arith, v.buffers_count)) in
      let old : (j : ℕ) → j ≢ i → get_or (set t.buffers i none) j none ≡ buffer_at t j =
        λ j ne. read j ∙ ground arith in
      let step : (i + 1) % t.ring.count ≡ (i + 1) % tx_desc_count =
        ap (λ (k : ℕ). (i + 1) % k) v.counted in
      let n = in_use (advance_clean t.ring) in
      let one_more : in_use t.ring ≡ suc n = omega (arith, less) in
      let rest =
        window-set t.buffers i none ((i + 1) % tx_desc_count) n v.buffers_count i_in (omega arith)
          (omega (arith, now, one_more)) in
      let from = ap (λ (k : ℕ). window (set t.buffers i none) k n) step in
      (
        record {
          fits = v.fits;
          counted = v.counted;
          in_ring = vr;
          buffers_count = length-set t.buffers i none ∙ v.buffers_count;
          cmd_fits = v.cmd_fits;
          held = λ j hj p.
              let ne : j ≢ i = omega (arith, p, less, step, now) in
              let g = v.held j hj (omega (arith, p, less, step, now)) in
              record { info = g.info; kept = old j ne ∙ g.kept; addr_eq = g.addr_eq };
          vacant = λ j hj p. elim (ℕ_discrete j i) [
            | yes same ↦ rw same (read i ∙ ground arith)
            | no ne ↦ old j ne ∙ v.vacant j hj (omega (arith, p, less, step, now))
          ];
        },
        ap (window t.buffers i) one_more ∙ ap (◌∷◌ (buffer_at t i)) (sym (from ∙ rest)),
      )
