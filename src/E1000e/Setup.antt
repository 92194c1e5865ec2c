-- ===== src/E1000e/Setup.antt =====
-- `setup_rctl` and `configure_rx` of kernel/comps/e1000e/src/rx.rs. `!x` of a 32-bit word is
-- 2^32 - 1 - x.
use driver_workflow.Prelude.{ℕ, ◌-◌, ◌*◌, ◌/◌, ◌%◌, ◌^◌, bit_and, bit_or, Bool, if◌then◌else◌}
use driver_workflow.Dma.{Dma}
use driver_workflow.Pool.{RxPool}
use driver_workflow.Mmio.{Registers}
use driver_workflow.E1000e.Regs.{
  rctl, reg_rctl, reg_rdbal, reg_rdbah, reg_rdlen, reg_rdh, reg_rdt, reg_rdtr, reg_rxdctl, reg_radv,
  reg_rxcsum, reg_rfctl, reg_ctrl_ext, reg_iam, rctl_en, rctl_sbp, rctl_bam, rctl_lbm_no,
  rctl_rdmts_half, rctl_mo_shift, rctl_lpe, rctl_secrc, rctl_bsex, rctl_sz_2048, rctl_sz_4096,
  rfctl_exten, rxcsum_tuofl, ctrl_ext_iame, rxdctl_dma_burst_enable,
}
use driver_workflow.E1000e.Desc.{ring_size_bytes}
use driver_workflow.E1000e.Rx.{RxRing}

abbrev pub not_mask : ℕ → ℕ
not_mask x = 0xffff_ffff - x

pub record RxCoalesceConfig : Type 0 where
  pub rx_int_delay : ℕ
  pub rx_abs_int_delay : ℕ

-- `RxCoalesceConfig::default`
abbrev pub default_coalesce : RxCoalesceConfig
default_coalesce = record { rx_int_delay = 0; rx_abs_int_delay = 8 }

-- The value that `setup_rctl` makes of RCTL.
unfoldable pub rctl_value : Bool → ℕ → ℕ → ℕ
rctl_value crc_stripping mc_filter_type r0 =
    let r1 = bit_and r0 (not_mask (3 * 2 ^ rctl_mo_shift)) in
    let r2 = bit_or r1 (
      bit_or (bit_or (bit_or (bit_or rctl_en rctl_bam) rctl_lbm_no) rctl_rdmts_half)
        (mc_filter_type * 2 ^ rctl_mo_shift % 2 ^ 32)) in
    let r3 = bit_and r2 (not_mask rctl_sbp) in
    let r4 = bit_and r3 (not_mask rctl_lpe) in
    let r5 = if crc_stripping then bit_or r4 rctl_secrc else r4 in
    let r6 = bit_and r5 (not_mask rctl_sz_4096) in
    let r7 = bit_and r6 (not_mask rctl_bsex) in bit_or r7 rctl_sz_2048

module _ ⦃d : Dma⦄ ⦃p : RxPool⦄ ⦃io : Registers⦄ where
  -- `RxRing::setup_rctl`
  unfoldable pub setup_rctl : RxRing → io.World → ℕ → io.World
  setup_rctl x w mc_filter_type =
      let (rctl, w1) = io.read w reg_rctl in
      let (rfctl, w2) = io.read w1 reg_rfctl in
      let w3 = io.write w2 reg_rfctl (bit_or rfctl rfctl_exten) in
      io.write w3 reg_rctl (rctl_value x.crc_stripping mc_filter_type rctl)

  -- `RxRing::configure_rx`
  unfoldable pub configure_rx : RxRing → io.World → RxCoalesceConfig → io.World
  configure_rx x w coalesce =
      let rdba = d.daddr x.ring.ring % 2 ^ 64 in
      let rdlen = ring_size_bytes x.ring in
      let (rctl, w1) = io.read w reg_rctl in
      let w2 = io.write w1 reg_rctl (bit_and rctl (not_mask rctl_en)) in
      let (_, w3) = io.read w2 reg_rctl in
      let w4 = if x.dma_burst then io.write w3 reg_rxdctl rxdctl_dma_burst_enable else w3 in
      let w5 = io.write w4 reg_rdtr coalesce.rx_int_delay in
      let w6 = io.write w5 reg_radv coalesce.rx_abs_int_delay in
      let (ctrl_ext, w7) = io.read w6 reg_ctrl_ext in
      let w8 = io.write w7 reg_ctrl_ext (bit_or ctrl_ext ctrl_ext_iame) in
      let w9 = io.write w8 reg_iam 0xffff_ffff in
      let (_, w10) = io.read w9 reg_ctrl_ext in
      let w11 = io.write w10 reg_rdbal (rdba % 2 ^ 32) in
      let w12 = io.write w11 reg_rdbah (rdba / 2 ^ 32 % 2 ^ 32) in
      let w13 = io.write w12 reg_rdlen rdlen in
      let w14 = io.write w13 reg_rdh 0 in
      let w15 = io.write w14 reg_rdt 0 in
      let (rxcsum, w16) = io.read w15 reg_rxcsum in
      let w17 =
        if x.rx_csum_enabled
        then io.write w16 reg_rxcsum (bit_or rxcsum rxcsum_tuofl)
        else io.write w16 reg_rxcsum (bit_and rxcsum (not_mask rxcsum_tuofl)) in
      io.write w17 reg_rctl rctl
