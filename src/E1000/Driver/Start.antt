-- ===== src/E1000/Driver/Start.antt =====
-- `init`: the rings of a device that comes up.
use driver_workflow.Prelude.{ℕ, ◌≡◌, refl, subst, Bool, true, false, Option, none, some, List, []}
use driver_workflow.Dma.{Dma}
use driver_workflow.Pool.{RxPool}
use driver_workflow.Mmio.{Registers}
use driver_workflow.E1000.Tx
use driver_workflow.E1000.Tx.{TxRing, tx_desc_count, xmit_frame, clean_tx_irq}
use driver_workflow.E1000.Tx.Inv
use driver_workflow.E1000.Tx.Clean.{new_tx_ring-IsValid}
use driver_workflow.E1000.Rx
use driver_workflow.E1000.Rx.{RxRing, clean_rx_irq, alloc_rx_buffers}
use driver_workflow.E1000.Rx.Inv as RxInv
use driver_workflow.E1000.Rx.Alloc.{new_ring-IsValid, alloc_rx_buffers-IsValid}
use driver_workflow.E1000.Hw.{E1000Hw}
use driver_workflow.E1000.Init.{init_hw}
use driver_workflow.E1000.Driver.{
  Device, start, with_rx_ring, with_tx_ring, with_hw, init, identify,
}

module _ ⦃d : Dma⦄ ⦃p : RxPool⦄ ⦃io : Registers⦄ where
  pub record Ready (e : Device) : Type 0 where
    pub tx_valid : Inv.IsValid e.tx_ring
    pub rx_valid : RxInv.IsValid e.rx_ring

  -- What `init` establishes.
  abbrev pub Fresh : Device → Type 0
  Fresh e = Ready e × (Inv.in_flight e.tx_ring ≡ [])

  start-Fresh : (e : Device) → Fresh e → Fresh (start e)
  unfolding start
  start-Fresh e (r, none_yet) = (
    record {
      tx_valid = r.tx_valid;
      rx_valid = alloc_rx_buffers-IsValid e.rx_ring _ e.pool r.rx_valid;
    },
    none_yet,
  )

  with_rx_ring-Fresh :
      (hw : E1000Hw) (mac : List ℕ) (pool : p.Pool) (t : TxRing) (a : Option RxRing × d.Heap)
      (e : Device)
      → Inv.IsValid t × (Inv.in_flight t ≡ [])
      → ((q : RxRing) → a.0 ≡ some q → RxInv.IsValid q)
      → with_rx_ring hw mac pool t a ≡ some e
      → Fresh e
  unfolding with_rx_ring
  with_rx_ring-Fresh hw mac pool t (none, heap) e tv rv is = cc
  with_rx_ring-Fresh hw mac pool t (some q, heap) e (tv, none_yet) rv is =
      let made : Device = record {
        hw = hw;
        tx_ring = t;
        rx_ring = q;
        mac_addr = mac;
        link_up = false;
        link_speed = 0;
        link_duplex = 0;
        pool = pool;
        heap = heap;
      } in
      let same : start made ≡ e = cc in
      subst Fresh same (start-Fresh made (record { tx_valid = tv; rx_valid = rv q refl }, none_yet))

  with_tx_ring-Fresh :
      (hw : E1000Hw) (mac : List ℕ) (pool : p.Pool) (a : Option TxRing × d.Heap) (e : Device)
      → ((t : TxRing) → a.0 ≡ some t → Inv.IsValid t × (Inv.in_flight t ≡ []))
      → with_tx_ring hw mac pool a ≡ some e
      → Fresh e
  unfolding with_tx_ring
  with_tx_ring-Fresh hw mac pool (none, heap) e tv is = cc
  with_tx_ring-Fresh hw mac pool (some t, heap) e tv is =
      with_rx_ring-Fresh hw mac pool t (Rx.new_ring heap) e (tv t refl) (new_ring-IsValid heap) is

  with_hw-Fresh :
      (mac : List ℕ) (pool : p.Pool) (heap : d.Heap) (a : Bool × E1000Hw) (e : Device)
      → with_hw mac pool heap a ≡ some e
      → Fresh e
  unfolding with_hw
  with_hw-Fresh mac pool heap (false, hw) e is = cc
  with_hw-Fresh mac pool heap (true, hw) e is =
      with_tx_ring-Fresh hw mac pool (Tx.new_ring heap) e (new_tx_ring-IsValid heap) is

  pub init-Fresh :
      (w : io.World) (pool : p.Pool) (heap : d.Heap) (e : Device)
      → init w pool heap ≡ some e
      → Fresh e
  unfolding init
  init-Fresh w pool heap e is =
      with_hw-Fresh (identify w).mac_addr pool heap (init_hw (identify w)) e is
