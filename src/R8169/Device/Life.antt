-- ===== src/R8169/Device/Life.antt =====
-- The whole life of the device: `init`, and then calls of the driver and steps of the hardware and of
-- the rest of the kernel in any order.
use driver_workflow.Prelude.{
  ℕ, ◌<◌, ◌≡◌, inl, inr, refl, sym, ap, ◌∙◌, subst, true, false, some, List, arith,
}
use native.Mathlib.Decide.{ℕ_discrete}
use mathlib.Core.Bool.{false≢true}
use driver_workflow.Bits.{has}
use driver_workflow.Dma.{Dma}
use driver_workflow.Mmio.{Mmio}
use driver_workflow.Pool.{RxPool}
use driver_workflow.R8169.Regs.{desc_own, num_rx_desc, num_tx_desc}
use driver_workflow.R8169.Desc.{RawDesc, DescRing}
use driver_workflow.R8169.Desc.Entries.{entry}
use driver_workflow.R8169.Desc.Entries.Access.{Updates, Updates-IsRing}
use driver_workflow.R8169.Tx.{TxRing}
use driver_workflow.R8169.Tx.Inv
use driver_workflow.R8169.Tx.Xmit.{start_xmit-IsValid}
use driver_workflow.R8169.Tx.Reap.{rtl_tx-Reaps}
use driver_workflow.R8169.Tx.Clear.{new_ring-IsValid}
use driver_workflow.R8169.Tx.Safety
use driver_workflow.R8169.Device.{
  Device, receive, send, free_processed_tx_buffers, notify_poll_end, init,
}
use driver_workflow.R8169.Device.Armed.{owned, Armed, Armed-keeps, IsValid, IsValid-same}
use driver_workflow.R8169.Device.Receive.{receive-cases}
use driver_workflow.R8169.Device.Start.{init-Ready}
use driver_workflow.R8169.Device.TxKept.{receive_keeps_tx, with_rings-tx}

module _ ⦃d : Dma⦄ ⦃p : RxPool⦄ ⦃io : Mmio⦄ where
  -- Both rings are valid.
  pub record Alive (e : Device) : Type 0 where
    pub tx_valid : Inv.IsValid e.tx_ring
    pub rx_valid : IsValid e

  init-Alive :
      (w : io.World) (pool : p.Pool) (h : d.Heap) (e : Device) → init w pool h ≡ some e → Alive e
  unfolding init
  init-Alive w pool h e is = record {
    tx_valid = (new_ring-IsValid h e.tx_ring (with_rings-tx _ _ pool _ _ e is)).0;
    rx_valid = (init-Ready w pool h e is).valid;
  }

  -- A call of the driver, or a step of another part: the hardware gives back a transmit or a receive
  -- descriptor that it owns, of which it may then have written the rest; or the registers change, or
  -- the rest of the kernel takes and returns buffers of the pool and frames of memory.
  pub data Step (e f : Device) : Type 0 where
    sends : (packet : List ℕ) → f ≡ (send e packet).1 → Step e f
    receives : f ≡ (receive e).1 → Step e f
    reaps : free_processed_tx_buffers e ≡ some f → Step e f
    polled : f ≡ notify_poll_end e → Step e f
    transmits :
        (t : TxRing) → Safety.Completes e.tx_ring t → f ≡ record e { tx_ring = t } → Step e f
    fills :
        (i : ℕ) (c : RawDesc) (r : DescRing)
        → i < num_rx_desc
        → owned e i ≡ true
        → Updates e.rx_desc_ring i c r
        → has c.opts1 desc_own ≡ false
        → f ≡ record e { rx_desc_ring = r }
        → Step e f
    others :
        (w : io.World) (pool : p.Pool) (heap : d.Heap)
        → f ≡ record e { world = w; pool = pool; heap = heap }
        → Step e f

  pub data Reach (e : Device) : Device → Type 0 where
    here : Reach e e
    next : {f g : Device} → Reach e f → Step f g → Reach e g

  -- `free_processed_tx_buffers` always ends.
  free_ends :
      (e : Device) → Alive e → (f : Device) × (free_processed_tx_buffers e ≡ some f) × Alive f
  unfolding free_processed_tx_buffers
  free_ends e a =
      let (out, is, r) = rtl_tx-Reaps e.tx_ring a.tx_valid in
      (
        record e { tx_ring = out.0 },
        rw (free_processed_tx_buffers, is) refl,
        record { tx_valid = r.valid; rx_valid = IsValid-same e _ refl refl a.rx_valid },
      )

  pub receive-IsValid : (e : Device) → IsValid e → IsValid (receive e).1
  receive-IsValid e v = elim (receive-cases e v) [
    | inl (_, idle) ↦ rw idle v
    | inr (_, t) ↦ t.valid
  ]

  pub fills-IsValid :
      (e : Device) (i : ℕ) (c : RawDesc) (r : DescRing)
      → IsValid e
      → Updates e.rx_desc_ring i c r
      → has c.opts1 desc_own ≡ false
      → IsValid (record e { rx_desc_ring = r })
  fills-IsValid e i c r v u free = record {
    shape = Updates-IsRing u v.shape;
    slots = v.slots;
    armed = λ j hj own. elim (ℕ_discrete j i) [
      | yes same ↦
          let taken : has (entry r j).opts1 desc_own ≡ false = rw (same, u.written) free in
          absurd (false≢true (sym taken ∙ own))
      | no ne ↦
          let kept = u.others_kept j ne in
          Armed-keeps e (record e { rx_desc_ring = r }) j refl kept
            (v.armed j hj (ap (λ x. has (RawDesc.opts1 x) desc_own) (sym kept) ∙ own))
    ];
  }

  Step-Alive : {e f : Device} → Step e f → Alive e → Alive f
  unfolding send
  Step-Alive {e} (sends packet is) a = rw is (record {
    tx_valid = start_xmit-IsValid e.tx_ring e.world e.heap packet a.tx_valid;
    rx_valid = IsValid-same e _ refl refl a.rx_valid;
  })
  Step-Alive {e} (receives is) a = rw is (record {
    tx_valid = subst Inv.IsValid (sym (receive_keeps_tx e)) a.tx_valid;
    rx_valid = receive-IsValid e a.rx_valid;
  })
  Step-Alive {e} {f} (reaps is) a =
      let (g, is', a') = free_ends e a in
      let same : g ≡ f = ground (arith, is, is') in subst Alive same a'
  Step-Alive {e} (polled is) a =
      rw is (record { tx_valid = a.tx_valid; rx_valid = IsValid-same e _ refl refl a.rx_valid })
  Step-Alive {e} (transmits t c is) a = rw is (record {
    tx_valid = Safety.Completes-IsValid c a.tx_valid;
    rx_valid = IsValid-same e _ refl refl a.rx_valid;
  })
  Step-Alive {e} (fills i c r h own u free is) a =
      rw is (record { tx_valid = a.tx_valid; rx_valid = fills-IsValid e i c r a.rx_valid u free })
  Step-Alive {e} (others w pool heap is) a =
      rw is (record { tx_valid = a.tx_valid; rx_valid = IsValid-same e _ refl refl a.rx_valid })

  Reach-Alive : {e f : Device} → Reach e f → Alive e → Alive f
  Reach-Alive here a = a
  Reach-Alive (next r s) a = Step-Alive s (Reach-Alive r a)

  -- DMA safety of the whole device: from one that `init` brings up on, and however the calls of the
  -- driver, the steps of the hardware and the rest of the kernel interleave, both rings stay valid;
  -- a transmit descriptor that the hardware owns holds the address of a buffer that its slot keeps,
  -- and a receive descriptor that it owns describes the buffer of its slot. Then
  -- `free_processed_tx_buffers` ends.
  pub life-Alive :
      (w : io.World) (pool : p.Pool) (h : d.Heap) (e f : Device)
      → init w pool h ≡ some e
      → Reach e f
      → Alive f
        × ((i : ℕ) → i < num_tx_desc → Inv.owned f.tx_ring.ring i ≡ true → Inv.Holds f.tx_ring i)
        × ((i : ℕ) → i < num_rx_desc → owned f i ≡ true → Armed f i)
        × ((g : Device) × (free_processed_tx_buffers f ≡ some g))
  life-Alive w pool h e f is r =
      let a = Reach-Alive r (init-Alive w pool h e is) in
      let (g, ends, _) = free_ends f a in
      (a, λ i hi own. Safety.Holds-owned f.tx_ring i a.tx_valid hi own, a.rx_valid.armed, (g, ends))
