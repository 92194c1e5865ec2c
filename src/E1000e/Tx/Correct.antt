-- ===== src/E1000e/Tx/Correct.antt =====
-- What the e1000 driver's theorems say of the transmit ring of the e1000e driver.
use driver_workflow.Prelude.{ℕ, ◌≡◌, refl, sym, ap, ◌∙◌, subst, Option, none, some, List, []}
use driver_workflow.Dma.{Dma}
use driver_workflow.Mmio.{Registers}
use driver_workflow.E1000
use driver_workflow.E1000e.Tx.{TxRing, xmit_frame, clean_tx_irq, new_ring}
use driver_workflow.E1000e.Tx.Legacy.{
  legacy, legacy_option, legacy_sent, ring_of, xmit_frame-legacy, clean_tx_irq-legacy,
  new_ring-legacy,
}

module _ ⦃d : Dma⦄ ⦃io : Registers⦄ where
  -- On a valid ring, a frame is refused when 255 descriptors are in use, or reported with the step
  -- that failed in making its buffer, both with the ring and the device as they were, or queued in
  -- a buffer with its bytes behind the frames in flight, with the device told the new tail.
  pub xmit_frame-Outcome :
      (t : TxRing) (w : io.World) (h : d.Heap) (packet : List ℕ)
      → E1000.Tx.Inv.IsValid (legacy t)
      → E1000.Tx.Xmit.Outcome (legacy t) w h packet (legacy_sent (xmit_frame t w h packet))
  xmit_frame-Outcome t w h packet v =
      subst (E1000.Tx.Xmit.Outcome (legacy t) w h packet)
        (sym (xmit_frame-legacy t w h packet v.cmd_fits))
        (E1000.Tx.Xmit.xmit_frame_cases (legacy t) w h packet v)

module _ ⦃d : Dma⦄ where
  -- `clean_tx_irq` on a valid ring ends within its fuel, and frees the buffers of the frames in
  -- flight from the oldest on, up to the first that the device has not done.
  pub clean_tx_irq_outcome :
      (t : TxRing)
      → E1000.Tx.Inv.IsValid (legacy t)
      → (r : TxRing) × (clean_tx_irq t ≡ some r)
        × ((n : ℕ) × E1000.Tx.Clean.Cleans (legacy t) 0 (n, legacy r))
  clean_tx_irq_outcome t v =
      let ((n, r), e, c) = E1000.Tx.Clean.clean_tx_irq-Cleans (legacy t) v in
      go n r c (clean_tx_irq t) refl (clean_tx_irq-legacy t ∙ ap ring_of e)
    where
      go :
          (n : ℕ) (r : E1000.Tx.TxRing)
          → E1000.Tx.Clean.Cleans (legacy t) 0 (n, r)
          → (o : Option TxRing) → clean_tx_irq t ≡ o
          → legacy_option o ≡ some r
          → (r : TxRing) × (clean_tx_irq t ≡ some r)
            × ((n : ℕ) × E1000.Tx.Clean.Cleans (legacy t) 0 (n, legacy r))
      go n r c none e q = cc
      go n r c (some x) e q =
          let is : legacy x ≡ r = cc in
          (
            x,
            e,
            (
              n,
              subst (λ (y : E1000.Tx.TxRing). E1000.Tx.Clean.Cleans (legacy t) 0 (n, y)) (sym is) c,
            ),
          )

  -- A ring that `TxRing::new` hands out is valid, with no frame in flight.
  pub new_ring-IsValid :
      (h : d.Heap) (t : TxRing)
      → (new_ring h).0 ≡ some t
      → E1000.Tx.Inv.IsValid (legacy t) × (E1000.Tx.Inv.in_flight (legacy t) ≡ [])
  new_ring-IsValid h t e =
      E1000.Tx.Clean.new_tx_ring-IsValid h (legacy t) (sym (new_ring-legacy h) ∙ ap legacy_option e)
