-- ===== src/E1000/Setup.antt =====
-- `configure_tx` of kernel/comps/e1000/src/tx.rs and `configure_rx` of rx.rs: what the driver writes
-- to the device once a ring is allocated.
mod Tests
use driver_workflow.Prelude.{ℕ, ◌*◌, ◌/◌, ◌%◌, ◌^◌, bit_and, bit_or}
use driver_workflow.Mmio.{Registers}
use driver_workflow.E1000.Regs.{
  tdbal, tdbah, tdlen, tdh, tdt, tidv, txdctl, tctl, tipg, rdbal, rdbah, rdlen, rdh, rdt, rdtr,
  rctl, rxcsum, txdctl_full_tx_desc_wb, tctl_en, tctl_psp, collision_threshold, tctl_ct_shift,
  collision_distance_fd, tctl_cold_shift, tipg_ipgt_copper, tipg_ipgr1, tipg_ipgr1_shift,
  tipg_ipgr2, tipg_ipgr2_shift, rctl_en, rctl_bam, rctl_sz_2048, rctl_secrc, rctl_lbm_no,
  rctl_rdmts_half, rxcsum_ipofl, rxcsum_tuofl,
}
use driver_workflow.E1000.Tx.{tx_desc_count}
use driver_workflow.E1000.Rx.{rx_desc_count}

abbrev tctl_value : ℕ
tctl_value =
    bit_or (bit_or (bit_or tctl_en tctl_psp) (collision_threshold * 2 ^ tctl_ct_shift % 2 ^ 32))
      (collision_distance_fd * 2 ^ tctl_cold_shift % 2 ^ 32)

abbrev tipg_value : ℕ
tipg_value =
    bit_or (bit_or tipg_ipgt_copper (tipg_ipgr1 * 2 ^ tipg_ipgr1_shift % 2 ^ 32))
      (tipg_ipgr2 * 2 ^ tipg_ipgr2_shift % 2 ^ 32)

abbrev rctl_value : ℕ
rctl_value =
    bit_or (bit_or (bit_or (bit_or (bit_or rctl_en rctl_bam) rctl_sz_2048) rctl_secrc) rctl_lbm_no)
      rctl_rdmts_half

module _ ⦃io : Registers⦄ where
  -- The base, the length and the two pointers of a ring.
  write_ring : ℕ → ℕ → ℕ → ℕ → ℕ → io.World → ℕ → ℕ → io.World
  write_ring low high len head tail w dma_addr size =
      let w1 = io.write w low (bit_and dma_addr 0xffff_ffff % 2 ^ 32) in
      let w2 = io.write w1 high (bit_and (dma_addr / 2 ^ 32) 0xffff_ffff % 2 ^ 32) in
      let w3 = io.write w2 len (size % 2 ^ 32) in let w4 = io.write w3 head 0 in io.write w4 tail 0

  -- `configure_tx`, for a ring at `dma_addr`.
  unfoldable pub configure_tx : io.World → ℕ → io.World
  unfolding write_ring
  configure_tx w dma_addr =
      let w1 = write_ring tdbal tdbah tdlen tdh tdt w dma_addr (tx_desc_count * 16) in
      let w2 = io.write w1 tidv 8 in
      let w3 = io.write w2 txdctl txdctl_full_tx_desc_wb in
      let w4 = io.write w3 tctl tctl_value in io.write w4 tipg tipg_value

  -- `configure_rx`, for a ring at `dma_addr`.
  unfoldable pub configure_rx : io.World → ℕ → io.World
  unfolding write_ring
  configure_rx w dma_addr =
      let w1 = write_ring rdbal rdbah rdlen rdh rdt w dma_addr (rx_desc_count * 16) in
      let w2 = io.write w1 rdtr 0 in
      let w3 = io.write w2 rctl rctl_value in io.write w3 rxcsum (bit_or rxcsum_ipofl rxcsum_tuofl)
