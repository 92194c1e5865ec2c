-- ===== src/R8169/Device/Burst.antt =====
-- Receives in a row, as the network stack makes them while it polls the device.
use driver_workflow.Prelude.{
  ℕ, ◌+◌, ◌%◌, ◌≤◌, ◌<◌, ◌≡◌, inl, inr, refl, sym, ap, ◌∙◌, false, Option, none, if◌then◌else◌,
  arith, get_or,
}
use mathlib.Core.Bool.{false≢true}
use driver_workflow.Frames
use driver_workflow.Frames.{run, calls, calls-run}
use driver_workflow.Bits.{has}
use driver_workflow.Dma.{Dma}
use driver_workflow.Mmio.{Mmio}
use driver_workflow.Pool.{RxPool}
use driver_workflow.R8169.Regs.{desc_own, num_rx_desc}
use driver_workflow.R8169.Desc.{RawDesc}
use driver_workflow.R8169.Desc.Entries.{entry}
use driver_workflow.R8169.Device.{Device, receive}
use driver_workflow.R8169.Device.Armed.{owned, IsValid}
use driver_workflow.R8169.Device.Receive.{is_good, slot_of, delivered, receive-cases}

module _ ⦃d : Dma⦄ ⦃p : RxPool⦄ ⦃io : Mmio⦄ where
  -- What a slot that the hardware has handed back has for a call: its buffer with the length of the
  -- frame, or nothing where the hardware reports an error, a part of a frame or too short a frame.
  abbrev pub outcome : Device → ℕ → Option p.RxBuffer
  outcome e i =
      if is_good (entry e.rx_desc_ring i).opts1
      then delivered (entry e.rx_desc_ring i).opts1 (get_or e.rx_buffers i none)
      else none

  abbrev pub HandedBack : Device → ℕ → Type 0
  HandedBack e i = owned e i ≡ false

  receive-Takes :
      (e : Device)
      → IsValid e
      → HandedBack e (slot_of e)
      → Frames.Takes receive slot_of outcome HandedBack IsValid e
  receive-Takes e v free = elim (receive-cases e v) [
    | inl (own, _) ↦ absurd (false≢true (sym free ∙ own))
    | inr (_, t) ↦ record {
      gives = t.result_eq;
      good = t.valid;
      moves = omega (arith, t.cur_eq);
      written_kept = λ j ne back.
          let (_, ed) = t.others j ne in ap (λ c. has (RawDesc.opts1 c) desc_own) ed ∙ back;
      outcome_kept = λ j ne. let (eb, ed) = t.others j ne in rw (eb, ed) refl;
    }
  ]

  -- On a valid device of which the hardware has handed back `n` slots from the next one on, `n` calls
  -- of `receive` give what these slots have, in their order and each once, whatever the pool holds:
  -- the buffer with the frame's length for a good frame, and nothing for another one, which so costs
  -- a call but not the frames behind it. The index moves on by `n`, and the device stays valid.
  pub calls-receive-outcomes :
      (n : ℕ) (e : Device)
      → n ≤ num_rx_desc
      → IsValid e
      → ((j : ℕ) → j < n → owned e ((slot_of e + j) % num_rx_desc) ≡ false)
      → ((calls receive n e).0 ≡ run (outcome e) n (slot_of e))
        × (slot_of (calls receive n e).1 ≡ (slot_of e + n) % num_rx_desc)
        × IsValid (calls receive n e).1
  calls-receive-outcomes n e short v back =
      calls-run receive slot_of outcome HandedBack IsValid (λ e' v'. omega arith) receive-Takes n e
        short v back
