-- ===== src/R8169/Tx/Reap.antt =====
-- `rtl_tx`: which slots a pass reclaims, and that it ends.
use native.Mathlib.Decide.{ℕ_discrete}
use driver_workflow.Prelude.{
  ℕ, zero, suc, ◌+◌, ◌-◌, ◌%◌, ◌^◌, ◌≤◌, ◌<◌, ◌≡◌, ◌⊎◌, inl, inr, refl, sym, ap, ◌∙◌, Bool, true,
  false, some, List, [], ◌∷◌, ◌++◌, arith, ◌==◌, if◌then◌else◌, length, get_or, set, get_or-set,
  Bool-cases,
}
use driver_workflow.Bits.{has, bit}
use driver_workflow.Dma.{Dma}
use driver_workflow.R8169.Regs.{desc_own, ring_end, num_tx_desc}
use driver_workflow.R8169.Desc.{RawDesc, TxSlot, empty_slot}
use driver_workflow.R8169.Desc.Entries.{IsDesc}
use driver_workflow.R8169.Desc.Entries.Access.{write_desc_lem, read_opts1_lem}
use driver_workflow.R8169.Tx.{
  TxRing, TxCompleteStats, unmap_tx_slot, blank, count_slot, reap_from, rtl_tx,
}
use driver_workflow.R8169.Tx.Inv.{IsValid, pending, slot_at, owned, Changes, empty-IsValid}

pub blank_opts1 :
    (b : Bool)
    → let v = if b then ring_end else 0 in
      (v < 2 ^ 32) × (has v desc_own ≡ false) × (bit v 30 ≡ (if b then 1 else 0))
unfolding has bit
blank_opts1 true = (omega arith, refl, refl)
blank_opts1 false = (omega arith, refl, refl)

module _ ⦃d : Dma⦄ where
  -- The ring after the oldest pending slot is given back.
  abbrev pub reclaim : TxRing → TxRing
  reclaim t = record (unmap_tx_slot t (t.dirty_tx % num_tx_desc)) {
    dirty_tx = (t.dirty_tx + 1) % 2 ^ 32;
  }

  reclaim-Changes :
      (t : TxRing)
      → IsValid t
      → let i = t.dirty_tx % num_tx_desc in Changes t i (blank i) empty_slot (reclaim t)
  unfolding unmap_tx_slot
  reclaim-Changes t v =
      let i = t.dirty_tx % num_tx_desc in
      record {
        ring_changes =
            (write_desc_lem num_tx_desc t.ring i (blank i) v.is_ring (omega arith) blank_fits).1;
        slots_changes = refl;
      }
    where
      blank_fits : IsDesc (blank (t.dirty_tx % num_tx_desc))
      blank_fits = omega (arith, (blank_opts1 (t.dirty_tx % num_tx_desc == num_tx_desc - 1)).0)

  reclaim-IsValid : (t : TxRing) → IsValid t → 0 < pending t → IsValid (reclaim t)
  unfolding unmap_tx_slot
  reclaim-IsValid t v some_pending =
      let c = reclaim-Changes t v in
      let (_, free, ends) = blank_opts1 (t.dirty_tx % num_tx_desc == num_tx_desc - 1) in
      empty-IsValid v c some_pending refl refl free
        (rw (ap (λ (e : RawDesc). e.opts1) c.ring_changes.written) ends)

  -- The frames in flight, oldest first: `n` slots from index `dirty` on.
  abbrev pub window : List TxSlot → ℕ → ℕ → List TxSlot
  window slots dirty zero = []
  window slots dirty (suc n) =
      get_or slots (dirty % num_tx_desc) empty_slot ∷ window slots ((dirty + 1) % 2 ^ 32) n

  abbrev pub in_flight : TxRing → List TxSlot
  in_flight t = window t.slots t.dirty_tx (pending t)

  -- A slot outside the window may change.
  pub window-set :
      (slots : List TxSlot) (i : ℕ) (s : TxSlot) (dirty n : ℕ)
      → length slots ≡ num_tx_desc
      → i < num_tx_desc
      → dirty < 2 ^ 32
      → n ≤ (i + num_tx_desc - dirty % num_tx_desc) % num_tx_desc
      → window (set slots i s) dirty n ≡ window slots dirty n
  window-set slots i s dirty zero count hi hd out = refl
  window-set slots i s dirty (suc n) count hi hd out = ground (
    arith,
    get_or-set slots i s (dirty % num_tx_desc) empty_slot,
    window-set slots i s ((dirty + 1) % 2 ^ 32) n count hi (omega arith) (omega arith),
  )

  in_flight-reclaim :
      (t : TxRing)
      → IsValid t
      → 0 < pending t
      → in_flight t ≡ slot_at t (t.dirty_tx % num_tx_desc) ∷ in_flight (reclaim t)
  unfolding unmap_tx_slot
  in_flight-reclaim t v some_pending =
      let i = t.dirty_tx % num_tx_desc in
      let next = (t.dirty_tx + 1) % 2 ^ 32 in
      let left = (t.cur_tx + 2 ^ 32 - next) % 2 ^ 32 in
      let one_more : pending t ≡ suc left = omega (arith, v.dirty_fits, v.cur_fits) in
      let rest =
        window-set t.slots i empty_slot next left v.slots_count (omega arith) (omega arith)
          (omega (arith, v.room, v.dirty_fits, v.cur_fits, one_more)) in
      ap (window t.slots t.dirty_tx) one_more ∙ ap (◌∷◌ (slot_at t i)) (sym rest)

  -- The lengths of the slots' frames, added up.
  abbrev pub bytes_in : List TxSlot → ℕ
  bytes_in [] = 0
  bytes_in (x ∷ xs) = x.len + bytes_in xs

  count_slot_lem :
      (slot : TxSlot) (s : TxCompleteStats)
      → slot.is_last ≡ true
      → ((count_slot slot s).tx_packets ≡ s.tx_packets + 1)
        × ((count_slot slot s).tx_bytes ≡ s.tx_bytes + slot.len)
  unfolding count_slot
  count_slot_lem slot s last = rw last (refl, refl)

  oldest-last :
      (t : TxRing)
      → IsValid t
      → 0 < pending t
      → (slot_at t (t.dirty_tx % num_tx_desc)).is_last ≡ true
  oldest-last t v some_pending =
      (v.held (t.dirty_tx % num_tx_desc) (omega arith) (omega (arith, some_pending))).last

  -- A pass over the ring `t`: it reclaims a prefix of the frames in flight, none of them still
  -- owned by the hardware, and stops at the first that is, or at the end. The statistics count each
  -- reclaimed frame and its length.
  pub record Reaps (t : TxRing) (s : TxCompleteStats) (out : TxRing × TxCompleteStats)
      : Type 0 where
    pub reclaimed : List TxSlot
    pub split : in_flight t ≡ reclaimed ++ in_flight out.0
    pub packets_eq : out.1.tx_packets ≡ s.tx_packets + length reclaimed
    pub bytes_eq : out.1.tx_bytes ≡ s.tx_bytes + bytes_in reclaimed
    pub valid : IsValid out.0
    pub cur_same : out.0.cur_tx ≡ t.cur_tx
    pub dirty_next : out.0.dirty_tx ≡ (t.dirty_tx + length reclaimed) % 2 ^ 32
    pub released :
        (j : ℕ) → j < length reclaimed → owned t.ring ((t.dirty_tx + j) % num_tx_desc) ≡ false
    pub stopped : (in_flight out.0 ≡ []) ⊎ (owned out.0.ring (out.0.dirty_tx % num_tx_desc) ≡ true)

  Reaps-none :
      (t : TxRing) (s : TxCompleteStats)
      → IsValid t
      → (in_flight t ≡ []) ⊎ (owned t.ring (t.dirty_tx % num_tx_desc) ≡ true)
      → Reaps t s (t, s)
  Reaps-none t s v stop = record {
    reclaimed = [];
    split = refl;
    packets_eq = omega arith;
    bytes_eq = omega arith;
    valid = v;
    cur_same = refl;
    dirty_next = omega (arith, v.dirty_fits);
    released = λ j h. elim h [ ];
    stopped = stop;
  }

  released-reclaim :
      (t : TxRing) (j : ℕ)
      → IsValid t
      → owned t.ring (t.dirty_tx % num_tx_desc) ≡ false
      → owned (reclaim t).ring (((t.dirty_tx + 1) % 2 ^ 32 + j) % num_tx_desc) ≡ false
      → owned t.ring ((t.dirty_tx + suc j) % num_tx_desc) ≡ false
  released-reclaim t j v free after =
      let i = t.dirty_tx % num_tx_desc in
      let k = (t.dirty_tx + suc j) % num_tx_desc in
      let same_index : ((t.dirty_tx + 1) % 2 ^ 32 + j) % num_tx_desc ≡ k = omega arith in
      let after' : owned (reclaim t).ring k ≡ false = rw same_index at after in
      elim (ℕ_discrete k i) [
        | yes again ↦ rw again free
        | no ne ↦ rw (← (reclaim-Changes t v).ring_changes.others_kept k ne) after'
      ]

  Reaps-more :
      (t : TxRing) (s : TxCompleteStats) (out : TxRing × TxCompleteStats)
      → IsValid t
      → 0 < pending t
      → owned t.ring (t.dirty_tx % num_tx_desc) ≡ false
      → Reaps (reclaim t) (count_slot (slot_at t (t.dirty_tx % num_tx_desc)) s) out
      → Reaps t s out
  unfolding unmap_tx_slot
  Reaps-more t s out v some_pending free r = record {
    reclaimed = slot_at t (t.dirty_tx % num_tx_desc) ∷ r.reclaimed;
    split =
        in_flight-reclaim t v some_pending
        ∙ ap (◌∷◌ (slot_at t (t.dirty_tx % num_tx_desc))) r.split;
    packets_eq =
        let (one, _) =
          count_slot_lem (slot_at t (t.dirty_tx % num_tx_desc)) s (oldest-last t v some_pending) in
        omega (arith, r.packets_eq, one);
    bytes_eq =
        let (_, len) =
          count_slot_lem (slot_at t (t.dirty_tx % num_tx_desc)) s (oldest-last t v some_pending) in
        omega (arith, r.bytes_eq, len);
    valid = r.valid;
    cur_same = r.cur_same;
    dirty_next = omega (arith, r.dirty_next);
    released = all_released;
    stopped = r.stopped;
  }
    where
      all_released :
          (j : ℕ)
          → j < suc (length r.reclaimed)
          → owned t.ring ((t.dirty_tx + j) % num_tx_desc) ≡ false
      all_released zero h = let e : t.dirty_tx + 0 ≡ t.dirty_tx = omega arith in rw e free
      all_released (suc j) h = released-reclaim t j v free (r.released j (omega arith))

  reap_from-Reaps :
      (fuel : ℕ) (t : TxRing) (dirty : ℕ) (s : TxCompleteStats)
      → IsValid (record t { dirty_tx = dirty })
      → pending (record t { dirty_tx = dirty }) < fuel
      → (out : TxRing × TxCompleteStats) × (reap_from fuel t dirty s ≡ some out)
        × Reaps (record t { dirty_tx = dirty }) s out
  unfolding reap_from unmap_tx_slot
  reap_from-Reaps zero t dirty s v h = elim h [ ]
  reap_from-Reaps (suc fuel) t dirty s v h =
      let x : TxRing = record t { dirty_tx = dirty } in
      let i = dirty % num_tx_desc in
      let read = read_opts1_lem num_tx_desc t.ring i v.is_ring (omega arith) in
      elim (Bool-cases (t.cur_tx == dirty)) [
        | inl done ↦
            let e : pending x ≡ 0 = ground (arith, done) in
            ((x, s), rw done, Reaps-none x s v (inl (ap (window t.slots dirty) e)))
        | inr more ↦ elim (Bool-cases (owned t.ring i)) [
          | inl busy ↦ ((x, s), rw (more, read, busy), Reaps-none x s v (inr busy))
          | inr free ↦
              let some_pending : 0 < pending x = ground (arith, more, v.dirty_fits, v.cur_fits) in
              let (out, e, r) =
                reap_from-Reaps fuel (unmap_tx_slot t i) ((dirty + 1) % 2 ^ 32)
                  (count_slot (slot_at t i) s) (reclaim-IsValid x v some_pending)
                  (omega (arith, some_pending, v.dirty_fits, v.cur_fits)) in
              (out, rw (more, read, free) e, Reaps-more x s out v some_pending free r)
        ]
      ]

  -- `rtl_tx` on a valid ring ends within its fuel. It reclaims from the oldest frame on, up to the
  -- first that the hardware still owns, and counts the reclaimed frames and the sum of their lengths.
  pub rtl_tx-Reaps :
      (t : TxRing)
      → IsValid t
      → (out : TxRing × TxCompleteStats) × (rtl_tx t ≡ some out)
        × Reaps t (record { tx_packets = 0; tx_bytes = 0 }) out
  unfolding rtl_tx
  rtl_tx-Reaps t v = reap_from-Reaps (suc num_tx_desc) t t.dirty_tx _ v (omega (arith, v.room))
