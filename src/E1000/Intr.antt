-- ===== src/E1000/Intr.antt =====
-- kernel/comps/e1000/src/intr.rs: enabling, causes and throttling of interrupts.
pub mod Flags
mod Tests
use driver_workflow.Prelude.{
  ℕ, ◌+◌, ◌*◌, ◌/◌, ◌%◌, ◌^◌, bit_or, Bool, true, false, ◌==◌, if◌then◌else◌,
}
use driver_workflow.Bits.{has}
use driver_workflow.Mmio.{Registers}
use driver_workflow.E1000.Regs.{
  status_reg, icr, itr, ims, imc, ims_enable_mask, icr_lsc, icr_rxt0, icr_rxdmt0, icr_txdw,
  icr_rxseq, icr_rxo,
}

-- The flags of `InterruptStatus`.
abbrev pub link_change : ℕ
link_change = 2 ^ 0

abbrev pub rx : ℕ
rx = 2 ^ 1

abbrev pub rx_desc_min_thresh : ℕ
rx_desc_min_thresh = 2 ^ 2

abbrev pub tx_done : ℕ
tx_done = 2 ^ 3

abbrev pub rx_seq_err : ℕ
rx_seq_err = 2 ^ 4

abbrev pub rx_overrun : ℕ
rx_overrun = 2 ^ 5

-- `if cause { status |= flag }`
unfoldable pub raise : ℕ → Bool → ℕ → ℕ
raise status cause flag = if cause then bit_or status flag else status

-- The status of a value of ICR.
unfoldable pub causes : ℕ → ℕ
causes v =
    if v == 0
    then 0
    else (let s1 = raise 0 (has v icr_lsc) link_change in
        let s2 = raise s1 (has v icr_rxt0) rx in
        let s3 = raise s2 (has v icr_rxdmt0) rx_desc_min_thresh in
        let s4 = raise s3 (has v icr_txdw) tx_done in
        let s5 = raise s4 (has v icr_rxseq) rx_seq_err in raise s5 (has v icr_rxo) rx_overrun)

-- `compute_itr`; the product is a `u32`.
unfoldable pub compute_itr : ℕ → ℕ
compute_itr ints_per_sec =
    if ints_per_sec == 0 then 0 else 1_000_000_000 / (256 * ints_per_sec % 2 ^ 32)

module _ ⦃io : Registers⦄ where
  -- `irq_enable`
  unfoldable pub irq_enable : io.World → io.World
  irq_enable w = (io.read (io.write w ims ims_enable_mask) status_reg).1

  -- `irq_disable`
  unfoldable pub irq_disable : io.World → io.World
  irq_disable w = (io.read (io.write w imc 0xffff_ffff) status_reg).1

  -- `read_icr`
  unfoldable pub read_icr : io.World → ℕ × io.World
  read_icr w = io.read w icr

  -- `process_interrupt`
  unfoldable pub process_interrupt : io.World → ℕ × io.World
  process_interrupt w = let (v, w') = read_icr w in (causes v, w')

  -- `set_itr`
  unfoldable pub set_itr : io.World → ℕ → io.World
  set_itr w itr_val = io.write w itr itr_val
