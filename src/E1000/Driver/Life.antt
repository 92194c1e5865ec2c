-- ===== src/E1000/Driver/Life.antt =====
-- The whole life of the device: `init`, and then calls of the driver and steps of the device and of
-- the rest of the kernel in any order.
use driver_workflow.E1000.Driver.Start.{Ready, init-Fresh}
use driver_workflow.Prelude.{ℕ, ◌<◌, ◌≡◌, inl, inr, refl, ◌∙◌, subst, some, List, arith, Bool-cases}
use driver_workflow.Dma.{Dma}
use driver_workflow.Pool.{RxPool}
use driver_workflow.Mmio.{Registers}
use driver_workflow.E1000.Desc.Index.{in_use}
use driver_workflow.E1000.Tx
use driver_workflow.E1000.Tx.{TxRing, tx_desc_count, xmit_frame, clean_tx_irq}
use driver_workflow.E1000.Tx.Inv
use driver_workflow.E1000.Tx.Xmit.{xmit_frame_cases}
use driver_workflow.E1000.Tx.Clean.{clean_tx_irq-Cleans}
use driver_workflow.E1000.Rx.{RxRing, clean_rx_irq}
use driver_workflow.E1000.Rx.Inv as RxInv
use driver_workflow.E1000.Rx.Clean.{clean_rx_irq_cases}
use driver_workflow.E1000.Driver.{
  Device, init, receive, send, free_processed_tx_buffers, notify_poll_end, can_send,
}

module _ ⦃d : Dma⦄ ⦃p : RxPool⦄ ⦃io : Registers⦄ where
  xmit_frame-IsValid :
      (t : TxRing) (w : io.World) (h : d.Heap) (packet : List ℕ)
      → Inv.IsValid t
      → Inv.IsValid (xmit_frame t w h packet).tx
  xmit_frame-IsValid t w h packet v = elim (xmit_frame_cases t w h packet v) [
    | inl (_, _, same, _) ↦ rw same v
    | inr (inl (_, _, _, _, same, _)) ↦ rw same v
    | inr (inr (_, _, q)) ↦ q.valid
  ]

  clean_rx_irq-IsValid :
      (q : RxRing) (w : io.World) (pool : p.Pool)
      → RxInv.IsValid q
      → RxInv.IsValid (clean_rx_irq q w pool).rx
  clean_rx_irq-IsValid q w pool v = elim (clean_rx_irq_cases q w pool v) [
    | inl (_, waits) ↦ waits.valid
    | inr (inl (_, _, r)) ↦ r.valid
    | inr (inr (_, _, g)) ↦ g.valid
  ]

  pub receive-IsValid : (e : Device) → RxInv.IsValid e.rx_ring → RxInv.IsValid (receive e).1.rx_ring
  unfolding receive
  receive-IsValid e v = clean_rx_irq-IsValid e.rx_ring e.hw.world e.pool v

  -- A call of the driver, or a step of another part: the device writes descriptors, but for the
  -- addresses of those that transmit, and its registers; the rest of the kernel takes and returns
  -- buffers of the pool and frames of memory.
  pub data Step (e f : Device) : Type 0 where
    sends : (packet : List ℕ) → f ≡ (send e packet).1 → Step e f
    receives : f ≡ (receive e).1 → Step e f
    reaps : free_processed_tx_buffers e ≡ some f → Step e f
    polled : f ≡ notify_poll_end e → Step e f
    transmits :
        (m : d.Mem)
        → d.size m ≡ d.size e.tx_ring.desc_dma
        → ((i : ℕ)
            → i < tx_desc_count
            → (Tx.read_desc m i).buffer_addr ≡ (Tx.read_desc e.tx_ring.desc_dma i).buffer_addr)
        → f ≡ record e { tx_ring = record e.tx_ring { desc_dma = m } }
        → Step e f
    fills :
        (m : d.Mem)
        → d.size m ≡ d.size e.rx_ring.desc_dma
        → f ≡ record e { rx_ring = record e.rx_ring { desc_dma = m } }
        → Step e f
    others :
        (w : io.World) (pool : p.Pool) (heap : d.Heap)
        → f ≡ record e { hw = record e.hw { world = w }; pool = pool; heap = heap }
        → Step e f

  pub data Reach (e : Device) : Device → Type 0 where
    here : Reach e e
    next : {f g : Device} → Reach e f → Step f g → Reach e g

  transmits-IsValid :
      (t : TxRing) (m : d.Mem)
      → Inv.IsValid t
      → d.size m ≡ d.size t.desc_dma
      → ((i : ℕ)
          → i < tx_desc_count
          → (Tx.read_desc m i).buffer_addr ≡ (Tx.read_desc t.desc_dma i).buffer_addr)
      → Inv.IsValid (record t { desc_dma = m })
  transmits-IsValid t m v size addr = record {
    fits = omega (arith, v.fits, size);
    counted = v.counted;
    in_ring = v.in_ring;
    buffers_count = v.buffers_count;
    cmd_fits = v.cmd_fits;
    held = λ i h used.
        let g = v.held i h used in
        record { info = g.info; kept = g.kept; addr_eq = addr i h ∙ g.addr_eq };
    vacant = v.vacant;
  }

  send-Ready : (e : Device) (packet : List ℕ) → Ready e → Ready (send e packet).1
  unfolding send
  send-Ready e packet r = elim (Bool-cases (can_send e)) [
    | inr full ↦ rw full r
    | inl free ↦ rw free (record {
      tx_valid = xmit_frame-IsValid e.tx_ring e.hw.world e.heap packet r.tx_valid;
      rx_valid = r.rx_valid;
    })
  ]

  receive-Ready : (e : Device) → Ready e → Ready (receive e).1
  unfolding receive
  receive-Ready e r = record { tx_valid = r.tx_valid; rx_valid = receive-IsValid e r.rx_valid }

  -- `free_processed_tx_buffers` always ends.
  free_ends :
      (e : Device) → Ready e → (f : Device) × (free_processed_tx_buffers e ≡ some f) × Ready f
  unfolding free_processed_tx_buffers
  free_ends e r =
      let (out, is, c) = clean_tx_irq-Cleans e.tx_ring r.tx_valid in
      (
        record e { tx_ring = out.1 },
        rw (free_processed_tx_buffers, is) refl,
        record { tx_valid = c.valid; rx_valid = r.rx_valid },
      )

  Step-Ready : {e f : Device} → Step e f → Ready e → Ready f
  unfolding notify_poll_end
  Step-Ready {e} (sends packet is) r = rw is (send-Ready e packet r)
  Step-Ready {e} (receives is) r = rw is (receive-Ready e r)
  Step-Ready {e} {f} (reaps is) r =
      let (g, is', r') = free_ends e r in
      let same : g ≡ f = ground (arith, is, is') in subst Ready same r'
  Step-Ready {e} (polled is) r = rw is (record { tx_valid = r.tx_valid; rx_valid = r.rx_valid })
  Step-Ready {e} (transmits m size addr is) r = rw is (record {
    tx_valid = transmits-IsValid e.tx_ring m r.tx_valid size addr;
    rx_valid = r.rx_valid;
  })
  Step-Ready {e} (fills m size is) r = rw is (record {
    tx_valid = r.tx_valid;
    rx_valid = record {
      fits = omega (arith, r.rx_valid.fits, size);
      counted = r.rx_valid.counted;
      in_ring = r.rx_valid.in_ring;
      buffers_count = r.rx_valid.buffers_count;
    };
  })
  Step-Ready {e} (others w pool heap is) r =
      rw is (record { tx_valid = r.tx_valid; rx_valid = r.rx_valid })

  Reach-Ready : {e f : Device} → Reach e f → Ready e → Ready f
  Reach-Ready here r = r
  Reach-Ready (next r s) v = Step-Ready s (Reach-Ready r v)

  -- From a device that `init` brings up on, and however the calls of the driver, the writes of the
  -- device and the rest of the kernel interleave: both rings stay valid, and so each descriptor in
  -- flight holds the address of a buffer that its slot keeps, as long as the device leaves the
  -- addresses of the descriptors that transmit alone; and `free_processed_tx_buffers` ends.
  pub life-Ready :
      (w : io.World) (pool : p.Pool) (heap : d.Heap) (e f : Device)
      → init w pool heap ≡ some e
      → Reach e f
      → Ready f
        × ((i : ℕ)
            → i < tx_desc_count
            → Inv.position f.tx_ring.ring i < in_use f.tx_ring.ring
            → Inv.Holds f.tx_ring i)
        × ((g : Device) × (free_processed_tx_buffers f ≡ some g))
  life-Ready w pool heap e f is r =
      let ready = Reach-Ready r (init-Fresh w pool heap e is).0 in
      let (g, ends, _) = free_ends f ready in (ready, ready.tx_valid.held, (g, ends))
