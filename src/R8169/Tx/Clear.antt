-- ===== src/R8169/Tx/Clear.antt =====
-- `TxRing::clear` and `TxRing::new`: both leave an empty ring.
use native.Mathlib.Decide.{ℕ_discrete}
use driver_workflow.Prelude.{
  ℕ, zero, suc, ◌+◌, ◌-◌, ◌<◌, ◌≡◌, refl, ◌∙◌, Bool, true, false, Option, none, some, [], arith,
  ◌==◌, ==_false, length, length-set, get_or-set, replicate, length-replicate, get_or-replicate,
}
use driver_workflow.Dma.{Dma}
use driver_workflow.R8169.Regs.{num_tx_desc}
use driver_workflow.R8169.Desc.{DescRing, empty_slot, new, set_ring_end}
use driver_workflow.R8169.Desc.Entries.{IsDesc, entry}
use driver_workflow.R8169.Desc.Entries.Access.{
  IsRing, Updates-IsRing, write_desc_lem, set_ring_end_lem,
}
use driver_workflow.R8169.Desc.Entries.Fresh.{zeroed, new_lem}
use driver_workflow.R8169.Tx.{
  TxRing, unmap_tx_slot, blank, clear_from, tx_clear, new_ring, end_ring, ended_ring,
}
use driver_workflow.R8169.Tx.Inv.{IsValid, slot_at}
use driver_workflow.R8169.Tx.Reap.{blank_opts1, in_flight}

module _ ⦃d : Dma⦄ where
  -- The slots below `n` are blank, with the sizes of a whole ring.
  record IsBlankBelow (n : ℕ) (t : TxRing) : Type 0 where
    is_ring : IsRing num_tx_desc t.ring
    slots_count : length t.slots ≡ num_tx_desc
    empty : (j : ℕ) → j < n → slot_at t j ≡ empty_slot
    blanked : (j : ℕ) → j < n → entry t.ring j ≡ blank j

  unmap-IsBlankBelow :
      (n : ℕ) (t : TxRing)
      → n < num_tx_desc
      → IsBlankBelow n t
      → IsBlankBelow (n + 1) (unmap_tx_slot t n)
  unfolding unmap_tx_slot
  unmap-IsBlankBelow n t h b =
      let fits : IsDesc (blank n) = omega (arith, (blank_opts1 (n == num_tx_desc - 1)).0) in
      let u = (write_desc_lem num_tx_desc t.ring n (blank n) b.is_ring h fits).1 in
      record {
        is_ring = Updates-IsRing u b.is_ring;
        slots_count = length-set t.slots n empty_slot ∙ b.slots_count;
        empty = λ j hj.
            ground (arith, get_or-set t.slots n empty_slot j empty_slot, b.slots_count, b.empty j);
        blanked = λ j hj. elim (ℕ_discrete j n) [
          | yes e ↦ rw e u.written
          | no ne ↦ rw (u.others_kept j ne) (b.blanked j (omega arith))
        ];
      }

  clear_from-IsBlankBelow :
      (n i : ℕ) (t : TxRing)
      → i + n ≡ num_tx_desc
      → IsBlankBelow i t
      → IsBlankBelow num_tx_desc (clear_from n i t)
  unfolding clear_from
  clear_from-IsBlankBelow zero i t e b = let e' : i ≡ num_tx_desc = omega arith in rw (← e') b
  clear_from-IsBlankBelow (suc n) i t e b =
      clear_from-IsBlankBelow n (i + 1) (unmap_tx_slot t i) (omega arith)
        (unmap-IsBlankBelow i t (omega arith) b)

  blank-IsValid :
      (t : TxRing)
      → IsBlankBelow num_tx_desc t
      → t.cur_tx ≡ 0
      → t.dirty_tx ≡ 0
      → IsValid t × (in_flight t ≡ [])
  blank-IsValid t b ec ed = (
    record {
      is_ring = b.is_ring;
      slots_count = b.slots_count;
      cur_fits = omega arith;
      dirty_fits = omega arith;
      room = omega arith;
      held = λ j hj p. absurd (omega arith);
      vacant = λ j hj p. b.empty j hj;
      unowned = λ j hj p. rw (b.blanked j hj) (blank_opts1 (j == num_tx_desc - 1)).1;
      ended = λ j hj. rw (b.blanked j hj) (blank_opts1 (j == num_tx_desc - 1)).2;
    },
    rw (ec, ed),
  )

  -- Whatever a valid ring holds, clearing it leaves a valid ring with nothing in flight.
  pub tx_clear-IsValid :
      (t : TxRing) → IsValid t → IsValid (tx_clear t) × (in_flight (tx_clear t) ≡ [])
  unfolding tx_clear
  tx_clear-IsValid t v =
      let b = clear_from-IsBlankBelow num_tx_desc 0 t refl start in
      blank-IsValid _
        (record {
          is_ring = b.is_ring;
          slots_count = b.slots_count;
          empty = b.empty;
          blanked = b.blanked;
        })
        refl refl
    where
      start : IsBlankBelow 0 t
      start = record {
        is_ring = v.is_ring;
        slots_count = v.slots_count;
        empty = λ j h. elim h [ ];
        blanked = λ j h. elim h [ ];
      }

  ended_ring-some :
      (p : Bool × DescRing) (t : TxRing)
      → p.0 ≡ true
      → ended_ring p ≡ some t
      → record { ring = p.1; slots = replicate num_tx_desc empty_slot; cur_tx = 0; dirty_tx = 0 }
        ≡ t
  unfolding ended_ring
  ended_ring-some (true, r) t okay e = ground arith
  ended_ring-some (false, r) t okay e = cc

  ended_ring-IsValid :
      (r : DescRing) (t : TxRing)
      → IsRing num_tx_desc r
      → ((i : ℕ) → i < num_tx_desc → entry r i ≡ zeroed)
      → ended_ring (set_ring_end r num_tx_desc) ≡ some t
      → IsValid t × (in_flight t ≡ [])
  ended_ring-IsValid r t is zeros e =
      let last_zero = zeros (num_tx_desc - 1) (omega arith) in
      let (okay, u) = set_ring_end_lem (num_tx_desc - 1) r is (rw last_zero (omega arith)) in
      let t_eq = ended_ring-some (set_ring_end r num_tx_desc) t okay e in
      rw (← t_eq) (
        blank-IsValid _
          (record {
            is_ring = Updates-IsRing u is;
            slots_count = length-replicate num_tx_desc empty_slot;
            empty = λ j hj. get_or-replicate num_tx_desc empty_slot j empty_slot hj;
            blanked = λ j hj. elim (ℕ_discrete j (num_tx_desc - 1)) [
              | yes same ↦ rw (same, u.written, last_zero)
              | no ne ↦ rw (u.others_kept j ne, zeros j hj, ==_false j (num_tx_desc - 1) ne)
            ];
          })
          refl refl)

  end_ring-IsValid :
      (a : Option DescRing × d.Heap) (t : TxRing)
      → ((r : DescRing)
          → a.0 ≡ some r
          → IsRing num_tx_desc r × ((i : ℕ) → i < num_tx_desc → entry r i ≡ zeroed))
      → (end_ring a).0 ≡ some t
      → IsValid t × (in_flight t ≡ [])
  unfolding end_ring
  end_ring-IsValid (none, h) t fresh e = cc
  end_ring-IsValid (some r, h) t fresh e =
      let (is, zeros) = fresh r refl in ended_ring-IsValid r t is zeros e

  -- The ring that `TxRing::new` hands out is valid, with nothing in flight.
  pub new_ring-IsValid :
      (h : d.Heap) (t : TxRing) → (new_ring h).0 ≡ some t → IsValid t × (in_flight t ≡ [])
  unfolding new_ring
  new_ring-IsValid h t e =
      end_ring-IsValid (new h num_tx_desc) t (λ r p. new_lem h num_tx_desc r p) e
