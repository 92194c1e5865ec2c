-- ===== src/R8169/Device/TxKept.antt =====
-- What of the device leaves its transmit ring alone: the receive path and `init`.
use driver_workflow.Prelude.{
  ℕ, zero, suc, ◌+◌, ◌-◌, bit_and, ◌≡◌, inl, inr, refl, sym, ap, ◌∙◌, Bool, true, false, Option,
  none, some, List, arith, if◌then◌else◌, Bool-cases, get_or, set,
}
use mathlib.Core.Option.{none-ne-some}
use driver_workflow.Dma.{Dma}
use driver_workflow.Mmio.{Mmio}
use driver_workflow.Pool.{RxPool}
use driver_workflow.R8169.Regs.{eth_fcs_len}
use driver_workflow.R8169.Desc.{DescRing, write_desc}
use driver_workflow.R8169.Rx.{pkt_size_mask}
use driver_workflow.R8169.Tx.{TxRing}
use driver_workflow.R8169.Device.{
  Device, slot_desc, place, fill_slot, alloc_rx_slot, move_on, hand_over, receive_at, receive,
  fill_from, start, start_filled, with_rings,
}
use driver_workflow.R8169.Device.Receive.{slot_of}

module _ ⦃d : Dma⦄ ⦃p : RxPool⦄ ⦃io : Mmio⦄ where
  -- Nothing but `send`, the completions and the hardware touches the transmit ring.
  place_keeps_tx :
      (e : Device) (i : ℕ) (b : p.RxBuffer) (w : Bool × DescRing)
      → (place e i b w).1.tx_ring ≡ e.tx_ring
  unfolding place
  place_keeps_tx e i b (false, r) = refl
  place_keeps_tx e i b (true, r) = refl

  fill_slot_keeps_tx :
      (e : Device) (i : ℕ) (t : Option p.RxBuffer × p.Pool)
      → (fill_slot e i t).1.tx_ring ≡ e.tx_ring
  unfolding fill_slot
  fill_slot_keeps_tx e i (none, pool) = refl
  fill_slot_keeps_tx e i (some b, pool) =
      place_keeps_tx (record e { pool = pool }) i b (write_desc e.rx_desc_ring i (slot_desc i b))

  alloc_rx_slot_keeps_tx : (e : Device) (i : ℕ) → (alloc_rx_slot e i).1.tx_ring ≡ e.tx_ring
  unfolding alloc_rx_slot
  alloc_rx_slot_keeps_tx e i = fill_slot_keeps_tx e i (p.take_buffer e.pool)

  move_on_keeps_tx : (e : Device) (i : ℕ) → (move_on e i).tx_ring ≡ e.tx_ring
  unfolding move_on
  move_on_keeps_tx e i = alloc_rx_slot_keeps_tx e i

  hand_over_keeps_tx :
      (e : Device) (i n : ℕ) (o : Option p.RxBuffer) → (hand_over e i n o).1.tx_ring ≡ e.tx_ring
  unfolding hand_over
  hand_over_keeps_tx e i n none = move_on_keeps_tx e i
  hand_over_keeps_tx e i n (some b) =
      move_on_keeps_tx (record e { rx_buffers = set e.rx_buffers i none }) i

  receive_at_keeps_tx :
      (e : Device) (i : ℕ) (o : Option ℕ) → (receive_at e i o).1.tx_ring ≡ e.tx_ring
  unfolding receive_at
  receive_at_keeps_tx e i none = refl
  receive_at_keeps_tx e i (some status) = ground (
    arith,
    move_on_keeps_tx e i,
    hand_over_keeps_tx e i (bit_and status pkt_size_mask - eth_fcs_len)
        (get_or e.rx_buffers i none),
  )

  pub receive_keeps_tx : (e : Device) → (receive e).1.tx_ring ≡ e.tx_ring
  unfolding receive
  receive_keeps_tx e = receive_at_keeps_tx e (slot_of e) _

  fill_from_keeps_tx :
      (n i : ℕ) (e e' : Device) → fill_from n i e ≡ some e' → e'.tx_ring ≡ e.tx_ring
  unfolding fill_from
  fill_from_keeps_tx zero i e e' is = ground arith
  fill_from_keeps_tx (suc n) i e e' is = elim (Bool-cases (alloc_rx_slot e i).0) [
    | inr failed ↦ absurd (none-ne-some e' (rw (fill_from, failed) at is))
    | inl okay ↦
        fill_from_keeps_tx n (i + 1) (alloc_rx_slot e i).1 e' (rw (fill_from, okay) at is)
        ∙ alloc_rx_slot_keeps_tx e i
  ]

  running_keeps_tx :
      (e e' : Device) (b : Bool) (w : io.World)
      → ◌≡◌ {A = Option Device} (if b then some (record e { world = w }) else none) (some e')
      → e'.tx_ring ≡ e.tx_ring
  running_keeps_tx e e' b w is = ground arith

  start_filled_keeps_tx :
      (n i : ℕ) (e e' : Device) → start_filled (fill_from n i e) ≡ some e' → e'.tx_ring ≡ e.tx_ring
  unfolding start_filled start
  start_filled_keeps_tx n i e e' is =
      go (fill_from n i e) (λ e1 q. fill_from_keeps_tx n i e e1 q) is
    where
      go :
          (o : Option Device)
          → ((e1 : Device) → o ≡ some e1 → e1.tx_ring ≡ e.tx_ring)
          → start_filled o ≡ some e'
          → e'.tx_ring ≡ e.tx_ring
      go none same is' = cc
      go (some e1) same is' = running_keeps_tx e1 e' _ _ is' ∙ same e1 refl

  pub with_rings-tx :
      (w : io.World) (mac : List ℕ) (pool : p.Pool) (t : Option TxRing)
      (a : Option DescRing × d.Heap) (e : Device)
      → with_rings w mac pool t a ≡ some e
      → t ≡ some e.tx_ring
  unfolding with_rings
  with_rings-tx w mac pool none a e is = cc
  with_rings-tx w mac pool (some t) (none, h) e is = cc
  with_rings-tx w mac pool (some t) (some r, h) e is =
      ap some (sym (start_filled_keeps_tx _ _ _ e is))
