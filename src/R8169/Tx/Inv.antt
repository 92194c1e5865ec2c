-- ===== src/R8169/Tx/Inv.antt =====
-- The invariant of the transmit ring, and the ring after one slot is taken or given back.
use native.Mathlib.Decide.{ℕ_discrete}
use driver_workflow.Prelude.{
  ℕ, ◌+◌, ◌-◌, ◌/◌, ◌%◌, ◌^◌, ◌≤◌, ◌<◌, ◌≡◌, ◌≢◌, ◌∙◌, Bool, true, false, some, arith, ◌==◌,
  if◌then◌else◌, length, get_or, set, length-set, get_or-set,
}
use driver_workflow.Bits.{has, bit}
use driver_workflow.Dma.{Dma}
use driver_workflow.R8169.Regs.{desc_own, num_tx_desc}
use driver_workflow.R8169.Desc.{RawDesc, DescRing, TxSlot, empty_slot}
use driver_workflow.R8169.Desc.Entries.{entry}
use driver_workflow.R8169.Desc.Entries.Access.{IsRing, Updates, Updates-IsRing}
use driver_workflow.R8169.Tx.{TxRing}

module _ ⦃d : Dma⦄ where
  -- The descriptors handed to the hardware and not yet reclaimed.
  abbrev pub pending : TxRing → ℕ
  pending t = (t.cur_tx + 2 ^ 32 - t.dirty_tx) % 2 ^ 32

  -- How far a slot lies behind the oldest pending one.
  abbrev pub position : TxRing → ℕ → ℕ
  position t i = (i + num_tx_desc - t.dirty_tx % num_tx_desc) % num_tx_desc

  abbrev pub slot_at : TxRing → ℕ → TxSlot
  slot_at t i = get_or t.slots i empty_slot

  -- The hardware owns the descriptor.
  abbrev pub owned : DescRing → ℕ → Bool
  owned r i = has (entry r i).opts1 desc_own

  -- The slot is that of a whole frame, and keeps the buffer alive whose address the descriptor holds.
  pub record Holds (t : TxRing) (i : ℕ) : Type 0 where
    pub buf : d.Mem
    pub last : (slot_at t i).is_last ≡ true
    pub kept : (slot_at t i).dma_buf ≡ some buf
    pub addr_lo_eq : (entry t.ring i).addr_lo ≡ d.daddr buf % 2 ^ 32
    pub addr_hi_eq : (entry t.ring i).addr_hi ≡ d.daddr buf / 2 ^ 32 % 2 ^ 32

  -- The end mark of a ring stands on its last descriptor and nowhere else.
  abbrev pub EndsAt : DescRing → ℕ → Type 0
  EndsAt r i = bit (entry r i).opts1 30 ≡ (if i == num_tx_desc - 1 then 1 else 0)

  pub record IsValid (t : TxRing) : Type 0 where
    pub is_ring : IsRing num_tx_desc t.ring
    pub slots_count : length t.slots ≡ num_tx_desc
    pub cur_fits : t.cur_tx < 2 ^ 32
    pub dirty_fits : t.dirty_tx < 2 ^ 32
    pub room : pending t < num_tx_desc
    pub held : (i : ℕ) → i < num_tx_desc → position t i < pending t → Holds t i
    pub vacant : (i : ℕ) → i < num_tx_desc → pending t ≤ position t i → slot_at t i ≡ empty_slot
    pub unowned : (i : ℕ) → i < num_tx_desc → pending t ≤ position t i → owned t.ring i ≡ false
    pub ended : (i : ℕ) → i < num_tx_desc → EndsAt t.ring i

  -- One slot and its descriptor written, all others as before.
  pub record Changes (t : TxRing) (i : ℕ) (e : RawDesc) (s : TxSlot) (u : TxRing) : Type 0 where
    pub ring_changes : Updates t.ring i e u.ring
    pub slots_changes : u.slots ≡ set t.slots i s

  module _ {t u : TxRing} {i : ℕ} {e : RawDesc} {s : TxSlot} (v : IsValid t) (c : Changes t i e s u)
      (h : i < num_tx_desc) where
    pub Changes-slot_self : slot_at u i ≡ s
    Changes-slot_self =
        rw (c.slots_changes)
          (get_or-set t.slots i s i empty_slot (omega (arith, v.slots_count)) ∙ ground arith)

    pub Changes-slot_ne : (j : ℕ) → j ≢ i → slot_at u j ≡ slot_at t j
    Changes-slot_ne j ne =
        rw (c.slots_changes)
          (get_or-set t.slots i s j empty_slot (omega (arith, v.slots_count)) ∙ ground arith)

    Changes-count : length u.slots ≡ num_tx_desc
    Changes-count = rw (c.slots_changes) (length-set t.slots i s ∙ v.slots_count)

    Changes-Holds : (j : ℕ) → j ≢ i → Holds t j → Holds u j
    Changes-Holds j ne g = record {
      buf = g.buf;
      last = rw (Changes-slot_ne j ne) g.last;
      kept = rw (Changes-slot_ne j ne) g.kept;
      addr_lo_eq = rw (c.ring_changes.others_kept j ne) g.addr_lo_eq;
      addr_hi_eq = rw (c.ring_changes.others_kept j ne) g.addr_hi_eq;
    }

    Changes-EndsAt : (j : ℕ) → EndsAt u.ring i → j < num_tx_desc → EndsAt u.ring j
    Changes-EndsAt j g hj = elim (ℕ_discrete j i) [
      | yes same ↦ rw same g
      | no ne ↦ rw (c.ring_changes.others_kept j ne) (v.ended j hj)
    ]

  -- The producer's step: the slot at `cur_tx` is filled.
  pub fill-IsValid :
      {t u : TxRing} {e : RawDesc} {s : TxSlot}
      → IsValid t
      → Changes t (t.cur_tx % num_tx_desc) e s u
      → pending t + 1 < num_tx_desc
      → u.cur_tx ≡ (t.cur_tx + 1) % 2 ^ 32
      → u.dirty_tx ≡ t.dirty_tx
      → Holds u (t.cur_tx % num_tx_desc)
      → EndsAt u.ring (t.cur_tx % num_tx_desc)
      → IsValid u
  fill-IsValid {t} {u} v c space ecur edirty holds ends =
      let i = t.cur_tx % num_tx_desc in
      let more : pending u ≡ pending t + 1 = omega arith in
      let pos : (j : ℕ) → position u j ≡ position t j = λ j. rw edirty in
      record {
        is_ring = Updates-IsRing c.ring_changes v.is_ring;
        slots_count = Changes-count v c (omega arith);
        cur_fits = omega arith;
        dirty_fits = omega arith;
        room = omega arith;
        held = λ j hj p. elim (ℕ_discrete j i) [
          | yes same ↦ rw same holds
          | no ne ↦ Changes-Holds v c (omega arith) j ne (v.held j hj (omega arith))
        ];
        vacant = λ j hj p.
            rw (Changes-slot_ne v c (omega arith) j (omega arith)) (v.vacant j hj (omega arith));
        unowned = λ j hj p.
            rw (c.ring_changes.others_kept j (omega arith)) (v.unowned j hj (omega arith));
        ended = λ j hj. Changes-EndsAt v c (omega arith) j ends hj;
      }

  -- The consumer's step: the slot at `dirty_tx` is emptied.
  pub empty-IsValid :
      {t u : TxRing} {e : RawDesc}
      → IsValid t
      → Changes t (t.dirty_tx % num_tx_desc) e empty_slot u
      → 0 < pending t
      → u.cur_tx ≡ t.cur_tx
      → u.dirty_tx ≡ (t.dirty_tx + 1) % 2 ^ 32
      → has e.opts1 desc_own ≡ false
      → EndsAt u.ring (t.dirty_tx % num_tx_desc)
      → IsValid u
  empty-IsValid {t} {u} v c some_pending ecur edirty free ends =
      let i = t.dirty_tx % num_tx_desc in
      let less : pending u + 1 ≡ pending t = omega arith in
      record {
        is_ring = Updates-IsRing c.ring_changes v.is_ring;
        slots_count = Changes-count v c (omega arith);
        cur_fits = omega arith;
        dirty_fits = omega arith;
        room = omega arith;
        held =
            λ j hj p. Changes-Holds v c (omega arith) j (omega arith) (v.held j hj (omega arith));
        vacant = λ j hj p. elim (ℕ_discrete j i) [
          | yes same ↦ rw same (Changes-slot_self v c (omega arith))
          | no ne ↦ rw (Changes-slot_ne v c (omega arith) j ne) (v.vacant j hj (omega arith))
        ];
        unowned = λ j hj p. elim (ℕ_discrete j i) [
          | yes same ↦ rw (same, c.ring_changes.written) free
          | no ne ↦ rw (c.ring_changes.others_kept j ne) (v.unowned j hj (omega arith))
        ];
        ended = λ j hj. Changes-EndsAt v c (omega arith) j ends hj;
      }
