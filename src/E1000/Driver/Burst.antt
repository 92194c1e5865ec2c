-- ===== src/E1000/Driver/Burst.antt =====
-- Receives in a row, as the network stack makes them while it polls the device.
use driver_workflow.Prelude.{
  ℕ, ◌+◌, ◌%◌, ◌≤◌, ◌<◌, ◌≡◌, inl, inr, refl, sym, ◌∙◌, true, Option, none, some, if◌then◌else◌,
  arith,
}
use driver_workflow.Frames
use driver_workflow.Frames.{run, calls, calls-run}
use driver_workflow.Dma.{Dma}
use driver_workflow.Mmio.{Registers}
use driver_workflow.Pool.{RxPool}
use driver_workflow.E1000.Desc.{E1000RxDesc, rx_done, has_error}
use driver_workflow.E1000.Rx.{RxRing, rx_desc_count, read_desc}
use driver_workflow.E1000.Rx.Inv.{IsValid, buffer_at}
use driver_workflow.E1000.Rx.Clean.{clean_rx_irq_cases}
use driver_workflow.E1000.Driver.{Device, receive}

module _ ⦃d : Dma⦄ ⦃p : RxPool⦄ where
  -- A frame's buffer with the length that the device wrote, or nothing for a frame with an error.
  abbrev pub outcome_of : E1000RxDesc → Option p.RxBuffer → Option p.RxBuffer
  outcome_of c none = none
  outcome_of c (some b) = if has_error c then none else some (p.set_payload_len b c.length)

  abbrev pub outcome_at : RxRing → ℕ → Option p.RxBuffer
  outcome_at q i = outcome_of (read_desc q.desc_dma i) (buffer_at q i)

  -- The device has written the frame of a slot, which holds its buffer.
  abbrev pub Written : RxRing → ℕ → Type 0
  Written q i =
      (rx_done (read_desc q.desc_dma i) ≡ true) × ((b : p.RxBuffer) × (buffer_at q i ≡ some b))

module _ ⦃d : Dma⦄ ⦃p : RxPool⦄ ⦃io : Registers⦄ where
  abbrev pub next_slot : Device → ℕ
  next_slot e = e.rx_ring.ring.next_to_clean

  abbrev pub outcome : Device → ℕ → Option p.RxBuffer
  outcome e = outcome_at e.rx_ring

  receive-Takes :
      (e : Device)
      → IsValid e.rx_ring
      → Written e.rx_ring (next_slot e)
      → Frames.Takes receive next_slot outcome
          (λ e'. Written e'.rx_ring)
          (λ e'. IsValid e'.rx_ring)
          e
  unfolding receive
  receive-Takes e v (done, (b, held)) =
      let q = e.rx_ring in
      elim (clean_rx_irq_cases q e.hw.world e.pool v) [
        | inl (inl wait, _) ↦ cc
        | inl (inr (_, empty), _) ↦ cc
        | inr (inl (_, bad, g)) ↦ record {
          gives = g.nothing ∙ sym (rw (held, bad) refl);
          good = g.valid;
          moves = g.clean_next;
          written_kept = λ j ne (done', (b', held')).
              (rw (g.others.descs_kept j ne) done', (b', g.others.buffers_kept j ne ∙ held'));
          outcome_kept = λ j ne. rw (g.others.buffers_kept j ne, g.others.descs_kept j ne) refl;
        }
        | inr (inr (_, good, g)) ↦ record {
          gives = g.packet_eq ∙ sym (rw (g.held, good) refl);
          good = g.valid;
          moves = g.clean_next;
          written_kept = λ j ne (done', (b', held')).
              (rw (g.others.descs_kept j ne) done', (b', g.others.buffers_kept j ne ∙ held'));
          outcome_kept = λ j ne. rw (g.others.buffers_kept j ne, g.others.descs_kept j ne) refl;
        }
      ]

  -- On a device with a valid receive ring in which `n` slots from the next one on hold their buffers
  -- and have a frame that the device has written, `n` calls of `receive` give what these slots have,
  -- in their order and each once, whatever the pool holds: the buffer with the frame's length, or
  -- nothing for a frame with an error, which so costs a call but not the frames behind it. The index
  -- moves on by `n`, and the ring stays valid.
  pub calls-receive-results :
      (n : ℕ) (e : Device)
      → n ≤ rx_desc_count
      → IsValid e.rx_ring
      → ((j : ℕ) → j < n → Written e.rx_ring ((next_slot e + j) % rx_desc_count))
      → ((calls receive n e).0 ≡ run (outcome e) n (next_slot e))
        × (next_slot (calls receive n e).1 ≡ (next_slot e + n) % rx_desc_count)
        × IsValid (calls receive n e).1.rx_ring
  calls-receive-results n e short v written =
      calls-run receive next_slot outcome (λ e'. Written e'.rx_ring) (λ e'. IsValid e'.rx_ring)
        (λ e' v'. omega (arith, v'.counted, v'.in_ring.clean_in)) receive-Takes n e short v written
