-- ===== src/E1000/Intr/Tests.antt =====
-- Interrupt causes at a concrete value of ICR.
use driver_workflow.Prelude.{ℕ, ◌≡◌, refl, bit_or}
use driver_workflow.Mmio.{Registers}
use driver_workflow.E1000.Regs.{icr_rxt0, icr_txdw}
use driver_workflow.E1000.Intr.{compute_itr, process_interrupt}
use driver_workflow.E1000.Intr.Flags.{Flags, process_interrupt-Flags}

-- A device whose every register shows a received and a sent frame.
instance abbrev busy_device : Registers
busy_device = record { World = ℕ; read = λ w o. (bit_or icr_rxt0 icr_txdw, w); write = λ w o v. v }

process_interrupt-Flags_example :
    Flags (process_interrupt 0).0 (bit_or icr_rxt0 icr_txdw) × ((process_interrupt 0).1 ≡ 0)
process_interrupt-Flags_example = process_interrupt-Flags 0

itr_for_8000 : compute_itr 8000 ≡ 488
unfolding compute_itr
itr_for_8000 = refl
