-- ===== src/E1000/Regs.antt =====
-- kernel/comps/e1000/src/regs.rs: the constants that the modelled code uses.
use driver_workflow.Prelude.{ℕ, ◌^◌, bit_or}

abbrev pub eerd : ℕ
eerd = 0x14

abbrev pub eerd_start : ℕ
eerd_start = 0x00000001

abbrev pub eerd_done : ℕ
eerd_done = 0x00000010

abbrev pub eerd_addr_shift : ℕ
eerd_addr_shift = 8

abbrev pub eerd_data_shift : ℕ
eerd_data_shift = 16

abbrev pub eerd_data_mask : ℕ
eerd_data_mask = 0xffff_0000

abbrev pub eeprom_enet_addr : ℕ
eeprom_enet_addr = 0

abbrev pub eeprom_checksum : ℕ
eeprom_checksum = 0xbaba

abbrev pub rdt : ℕ
rdt = 0x2818

abbrev pub tdt : ℕ
tdt = 0x3818

abbrev pub txd_cmd_eop : ℕ
txd_cmd_eop = 0x01

abbrev pub txd_cmd_ifcs : ℕ
txd_cmd_ifcs = 0x02

abbrev pub txd_cmd_rs : ℕ
txd_cmd_rs = 0x08

abbrev pub rxd_stat_dd : ℕ
rxd_stat_dd = 0x01

abbrev pub rxd_stat_eop : ℕ
rxd_stat_eop = 0x02

abbrev pub rxd_err_frame_err_mask : ℕ
rxd_err_frame_err_mask = bit_or (bit_or (bit_or (bit_or 0x01 0x02) 0x04) 0x10) 0x80

abbrev pub status_reg : ℕ
status_reg = 0x8

abbrev pub icr : ℕ
icr = 0xc0

abbrev pub itr : ℕ
itr = 0xc4

abbrev pub ims : ℕ
ims = 0xd0

abbrev pub imc : ℕ
imc = 0xd8

abbrev pub icr_txdw : ℕ
icr_txdw = 2 ^ 0

abbrev pub icr_lsc : ℕ
icr_lsc = 2 ^ 2

abbrev pub icr_rxseq : ℕ
icr_rxseq = 2 ^ 3

abbrev pub icr_rxdmt0 : ℕ
icr_rxdmt0 = 2 ^ 4

abbrev pub icr_rxo : ℕ
icr_rxo = 2 ^ 6

abbrev pub icr_rxt0 : ℕ
icr_rxt0 = 2 ^ 7

abbrev pub ims_enable_mask : ℕ
ims_enable_mask = bit_or (bit_or (bit_or (bit_or icr_rxt0 icr_txdw) icr_rxdmt0) icr_rxseq) icr_lsc

abbrev pub rctl : ℕ
rctl = 0x100

abbrev pub tctl : ℕ
tctl = 0x400

abbrev pub tipg : ℕ
tipg = 0x410

abbrev pub rdbal : ℕ
rdbal = 0x2800

abbrev pub rdbah : ℕ
rdbah = 0x2804

abbrev pub rdlen : ℕ
rdlen = 0x2808

abbrev pub rdh : ℕ
rdh = 0x2810

abbrev pub rdtr : ℕ
rdtr = 0x2820

abbrev pub tdbal : ℕ
tdbal = 0x3800

abbrev pub tdbah : ℕ
tdbah = 0x3804

abbrev pub tdlen : ℕ
tdlen = 0x3808

abbrev pub tdh : ℕ
tdh = 0x3810

abbrev pub tidv : ℕ
tidv = 0x3820

abbrev pub txdctl : ℕ
txdctl = 0x3828

abbrev pub rxcsum : ℕ
rxcsum = 0x5000

abbrev pub rctl_en : ℕ
rctl_en = 0x2

abbrev pub rctl_bam : ℕ
rctl_bam = 0x8000

abbrev pub rctl_sz_2048 : ℕ
rctl_sz_2048 = 0

abbrev pub rctl_secrc : ℕ
rctl_secrc = 0x0400_0000

abbrev pub rctl_lbm_no : ℕ
rctl_lbm_no = 0

abbrev pub rctl_rdmts_half : ℕ
rctl_rdmts_half = 0

abbrev pub tctl_en : ℕ
tctl_en = 0x2

abbrev pub tctl_psp : ℕ
tctl_psp = 0x8

abbrev pub tctl_ct_shift : ℕ
tctl_ct_shift = 4

abbrev pub tctl_cold_shift : ℕ
tctl_cold_shift = 12

abbrev pub collision_threshold : ℕ
collision_threshold = 15

abbrev pub collision_distance_fd : ℕ
collision_distance_fd = 64

abbrev pub tipg_ipgt_copper : ℕ
tipg_ipgt_copper = 8

abbrev pub tipg_ipgr1_shift : ℕ
tipg_ipgr1_shift = 10

abbrev pub tipg_ipgr1 : ℕ
tipg_ipgr1 = 8

abbrev pub tipg_ipgr2_shift : ℕ
tipg_ipgr2_shift = 20

abbrev pub tipg_ipgr2 : ℕ
tipg_ipgr2 = 6

abbrev pub rxcsum_ipofl : ℕ
rxcsum_ipofl = 0x100

abbrev pub rxcsum_tuofl : ℕ
rxcsum_tuofl = 0x200

abbrev pub txdctl_full_tx_desc_wb : ℕ
txdctl_full_tx_desc_wb = 0x0101_0000
