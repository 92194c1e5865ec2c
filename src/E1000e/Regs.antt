-- ===== src/E1000e/Regs.antt =====
-- kernel/comps/e1000e/src: the constants of regs.rs, desc.rs, rx.rs and driver.rs that the modelled code uses.
use driver_workflow.Prelude.{ℕ, ◌*◌, ◌^◌, bit_or}

abbrev pub ctrl : ℕ
ctrl = 0x00000

abbrev pub status : ℕ
status = 0x00008

abbrev pub eerd : ℕ
eerd = 0x00014

abbrev pub icr : ℕ
icr = 0x000c0

abbrev pub ims : ℕ
ims = 0x000d0

abbrev pub imc : ℕ
imc = 0x000d8

abbrev pub rctl : ℕ
rctl = 0x00100

abbrev pub tctl : ℕ
tctl = 0x00400

abbrev pub tipg : ℕ
tipg = 0x00410

abbrev pub rdt : ℕ
rdt = 0x02818

abbrev pub tdbal : ℕ
tdbal = 0x03800

abbrev pub tdbah : ℕ
tdbah = 0x03804

abbrev pub tdlen : ℕ
tdlen = 0x03808

abbrev pub tdh : ℕ
tdh = 0x03810

abbrev pub tdt : ℕ
tdt = 0x03818

abbrev pub tidv : ℕ
tidv = 0x03820

abbrev pub txdctl : ℕ
txdctl = 0x03828

abbrev pub mta : ℕ
mta = 0x05200

abbrev pub ra : ℕ
ra = 0x05400

abbrev pub ctrl_asde : ℕ
ctrl_asde = 0x00000020

abbrev pub ctrl_slu : ℕ
ctrl_slu = 0x00000040

abbrev pub ctrl_rst : ℕ
ctrl_rst = 0x04000000

abbrev pub eerd_start : ℕ
eerd_start = 0x00000001

abbrev pub eerd_done : ℕ
eerd_done = 0x00000010

abbrev pub eerd_addr_shift : ℕ
eerd_addr_shift = 8

abbrev pub eerd_data_shift : ℕ
eerd_data_shift = 16

abbrev pub icr_txdw : ℕ
icr_txdw = 0x00000001

abbrev pub icr_lsc : ℕ
icr_lsc = 0x00000004

abbrev pub icr_rxseq : ℕ
icr_rxseq = 0x00000008

abbrev pub icr_rxdmt0 : ℕ
icr_rxdmt0 = 0x00000010

abbrev pub icr_rxt0 : ℕ
icr_rxt0 = 0x00000080

abbrev pub ims_enable_mask : ℕ
ims_enable_mask = bit_or (bit_or (bit_or (bit_or icr_rxt0 icr_txdw) icr_rxdmt0) icr_rxseq) icr_lsc

abbrev pub tctl_en : ℕ
tctl_en = 0x00000002

abbrev pub tctl_psp : ℕ
tctl_psp = 0x00000008

abbrev pub tctl_ct_shift : ℕ
tctl_ct_shift = 4

abbrev pub tctl_cold_shift : ℕ
tctl_cold_shift = 12

abbrev pub collision_threshold : ℕ
collision_threshold = 15

abbrev pub collision_distance_fd : ℕ
collision_distance_fd = 64

abbrev pub tipg_ipgt_copper : ℕ
tipg_ipgt_copper = 8

abbrev pub tipg_ipgr1_shift : ℕ
tipg_ipgr1_shift = 10

abbrev pub tipg_ipgr1 : ℕ
tipg_ipgr1 = 8

abbrev pub tipg_ipgr2_shift : ℕ
tipg_ipgr2_shift = 20

abbrev pub tipg_ipgr2 : ℕ
tipg_ipgr2 = 6

abbrev pub txdctl_full_tx_desc_wb : ℕ
txdctl_full_tx_desc_wb = 0x01010000

abbrev pub rah_av : ℕ
rah_av = 0x80000000

abbrev pub num_mta_registers : ℕ
num_mta_registers = 128

abbrev pub tx_desc_size : ℕ
tx_desc_size = 16

abbrev pub rx_desc_ext_size : ℕ
rx_desc_ext_size = 16

abbrev pub txd_cmd_eop : ℕ
txd_cmd_eop = 2 ^ 0

abbrev pub txd_cmd_ifcs : ℕ
txd_cmd_ifcs = 2 ^ 1

abbrev pub txd_cmd_rs : ℕ
txd_cmd_rs = 2 ^ 3

abbrev pub txd_stat_dd : ℕ
txd_stat_dd = 2 ^ 0

abbrev pub rxdext_stat_dd : ℕ
rxdext_stat_dd = 2 ^ 0

abbrev pub rxdext_stat_eop : ℕ
rxdext_stat_eop = 2 ^ 1

abbrev pub rxdext_stat_ixsm : ℕ
rxdext_stat_ixsm = 2 ^ 2

abbrev pub rxdext_stat_udpcs : ℕ
rxdext_stat_udpcs = 2 ^ 4

abbrev pub rxdext_stat_tcpcs : ℕ
rxdext_stat_tcpcs = 2 ^ 5

abbrev pub rxdext_staterr_ce : ℕ
rxdext_staterr_ce = 2 ^ 24

abbrev pub rxdext_staterr_se : ℕ
rxdext_staterr_se = 2 ^ 25

abbrev pub rxdext_staterr_seq : ℕ
rxdext_staterr_seq = 2 ^ 26

abbrev pub rxdext_staterr_cxe : ℕ
rxdext_staterr_cxe = 2 ^ 28

abbrev pub rxdext_staterr_rxe : ℕ
rxdext_staterr_rxe = 2 ^ 31

abbrev pub rxdext_err_frame_mask : ℕ
rxdext_err_frame_mask =
    bit_or
      (bit_or (bit_or (bit_or rxdext_staterr_ce rxdext_staterr_se) rxdext_staterr_seq)
        rxdext_staterr_cxe)
      rxdext_staterr_rxe

abbrev pub reg_rctl : ℕ
reg_rctl = 0x00100

abbrev pub reg_rdbal : ℕ
reg_rdbal = 0x02800

abbrev pub reg_rdbah : ℕ
reg_rdbah = 0x02804

abbrev pub reg_rdlen : ℕ
reg_rdlen = 0x02808

abbrev pub reg_rdh : ℕ
reg_rdh = 0x02810

abbrev pub reg_rdt : ℕ
reg_rdt = 0x02818

abbrev pub reg_rdtr : ℕ
reg_rdtr = 0x02820

abbrev pub reg_rxdctl : ℕ
reg_rxdctl = 0x02828

abbrev pub reg_radv : ℕ
reg_radv = 0x0282c

abbrev pub reg_rxcsum : ℕ
reg_rxcsum = 0x05000

abbrev pub reg_rfctl : ℕ
reg_rfctl = 0x05008

abbrev pub reg_ctrl_ext : ℕ
reg_ctrl_ext = 0x00018

abbrev pub reg_iam : ℕ
reg_iam = 0x000e0

abbrev pub rctl_en : ℕ
rctl_en = 2 ^ 1

abbrev pub rctl_sbp : ℕ
rctl_sbp = 2 ^ 2

abbrev pub rctl_bam : ℕ
rctl_bam = 2 ^ 15

abbrev pub rctl_lbm_no : ℕ
rctl_lbm_no = 0

abbrev pub rctl_rdmts_half : ℕ
rctl_rdmts_half = 0

abbrev pub rctl_mo_shift : ℕ
rctl_mo_shift = 12

abbrev pub rctl_lpe : ℕ
rctl_lpe = 2 ^ 5

abbrev pub rctl_secrc : ℕ
rctl_secrc = 2 ^ 26

abbrev pub rctl_bsex : ℕ
rctl_bsex = 2 ^ 25

abbrev pub rctl_sz_2048 : ℕ
rctl_sz_2048 = 0 * 2 ^ 16

abbrev pub rctl_sz_4096 : ℕ
rctl_sz_4096 = 3 * 2 ^ 16

abbrev pub rfctl_exten : ℕ
rfctl_exten = 0x00008000

abbrev pub rxcsum_tuofl : ℕ
rxcsum_tuofl = 0x00000200

abbrev pub ctrl_ext_iame : ℕ
ctrl_ext_iame = 0x08000000

abbrev pub rxdctl_dma_burst_enable : ℕ
rxdctl_dma_burst_enable = bit_or (bit_or (bit_or 0x01000000 (4 * 2 ^ 16)) (4 * 2 ^ 8)) 0x20

abbrev pub rx_buffer_write : ℕ
rx_buffer_write = 16

abbrev pub eth_fcs_len : ℕ
eth_fcs_len = 4

abbrev pub rxd_err_tcpe : ℕ
rxd_err_tcpe = 2 ^ 29

abbrev pub rxd_err_ipe : ℕ
rxd_err_ipe = 2 ^ 30

abbrev pub rx_desc_count : ℕ
rx_desc_count = 256

abbrev pub intel_vendor_id : ℕ
intel_vendor_id = 0x8086

abbrev pub e1000e_dev_id_82574l : ℕ
e1000e_dev_id_82574l = 0x10d3
