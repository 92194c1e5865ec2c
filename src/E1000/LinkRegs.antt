-- ===== src/E1000/LinkRegs.antt =====
-- The further constants of kernel/comps/e1000/src/regs.rs, for hw.rs and phy.rs, and those of hw.rs.
use driver_workflow.Prelude.{ℕ}

abbrev pub ctrl : ℕ
ctrl = 0x00000

abbrev pub mdic : ℕ
mdic = 0x00020

abbrev pub ledctl : ℕ
ledctl = 0x00e00

abbrev pub crcerrs : ℕ
crcerrs = 0x04000

abbrev pub algnerrc : ℕ
algnerrc = 0x04004

abbrev pub symerrs : ℕ
symerrs = 0x04008

abbrev pub rxerrc : ℕ
rxerrc = 0x0400c

abbrev pub mpc : ℕ
mpc = 0x04010

abbrev pub scc : ℕ
scc = 0x04014

abbrev pub ecol : ℕ
ecol = 0x04018

abbrev pub mcc : ℕ
mcc = 0x0401c

abbrev pub latecol : ℕ
latecol = 0x04020

abbrev pub colc : ℕ
colc = 0x04028

abbrev pub dc : ℕ
dc = 0x04030

abbrev pub tncrs : ℕ
tncrs = 0x04034

abbrev pub cexterr : ℕ
cexterr = 0x0403c

abbrev pub rlec : ℕ
rlec = 0x04040

abbrev pub xonrxc : ℕ
xonrxc = 0x04048

abbrev pub xontxc : ℕ
xontxc = 0x0404c

abbrev pub xoffrxc : ℕ
xoffrxc = 0x04050

abbrev pub xofftxc : ℕ
xofftxc = 0x04054

abbrev pub fcruc : ℕ
fcruc = 0x04058

abbrev pub gprc : ℕ
gprc = 0x04074

abbrev pub bprc : ℕ
bprc = 0x04078

abbrev pub mprc : ℕ
mprc = 0x0407c

abbrev pub gptc : ℕ
gptc = 0x04080

abbrev pub gorcl : ℕ
gorcl = 0x04088

abbrev pub gorch : ℕ
gorch = 0x0408c

abbrev pub gotcl : ℕ
gotcl = 0x04090

abbrev pub gotch : ℕ
gotch = 0x04094

abbrev pub rnbc : ℕ
rnbc = 0x040a0

abbrev pub ruc : ℕ
ruc = 0x040a4

abbrev pub rfc : ℕ
rfc = 0x040a8

abbrev pub roc : ℕ
roc = 0x040ac

abbrev pub rjc : ℕ
rjc = 0x040b0

abbrev pub torl : ℕ
torl = 0x040c0

abbrev pub torh : ℕ
torh = 0x040c4

abbrev pub totl : ℕ
totl = 0x040c8

abbrev pub toth : ℕ
toth = 0x040cc

abbrev pub tpr : ℕ
tpr = 0x040d0

abbrev pub tpt : ℕ
tpt = 0x040d4

abbrev pub mptc : ℕ
mptc = 0x040f0

abbrev pub bptc : ℕ
bptc = 0x040f4

abbrev pub tsctc : ℕ
tsctc = 0x040f8

abbrev pub tsctfc : ℕ
tsctfc = 0x040fc

abbrev pub mta : ℕ
mta = 0x05200

abbrev pub ra : ℕ
ra = 0x05400

abbrev pub vfta : ℕ
vfta = 0x05600

abbrev pub ctrl_asde : ℕ
ctrl_asde = 0x00000020

abbrev pub ctrl_slu : ℕ
ctrl_slu = 0x00000040

abbrev pub ctrl_frcspd : ℕ
ctrl_frcspd = 0x00000800

abbrev pub ctrl_frcdpx : ℕ
ctrl_frcdpx = 0x00001000

abbrev pub ctrl_rst : ℕ
ctrl_rst = 0x04000000

abbrev pub ctrl_rfce : ℕ
ctrl_rfce = 0x08000000

abbrev pub ctrl_tfce : ℕ
ctrl_tfce = 0x10000000

abbrev pub ctrl_phy_rst : ℕ
ctrl_phy_rst = 0x80000000

abbrev pub status_fd : ℕ
status_fd = 0x00000001

abbrev pub status_lu : ℕ
status_lu = 0x00000002

abbrev pub status_speed_mask : ℕ
status_speed_mask = 0x000000c0

abbrev pub status_speed_10 : ℕ
status_speed_10 = 0x00000000

abbrev pub status_speed_100 : ℕ
status_speed_100 = 0x00000040

abbrev pub status_speed_1000 : ℕ
status_speed_1000 = 0x00000080

abbrev pub mdic_data_mask : ℕ
mdic_data_mask = 0x0000ffff

abbrev pub mdic_reg_mask : ℕ
mdic_reg_mask = 0x001f0000

abbrev pub mdic_reg_shift : ℕ
mdic_reg_shift = 16

abbrev pub mdic_phy_mask : ℕ
mdic_phy_mask = 0x03e00000

abbrev pub mdic_phy_shift : ℕ
mdic_phy_shift = 21

abbrev pub mdic_op_write : ℕ
mdic_op_write = 0x04000000

abbrev pub mdic_op_read : ℕ
mdic_op_read = 0x08000000

abbrev pub mdic_ready : ℕ
mdic_ready = 0x10000000

abbrev pub mdic_error : ℕ
mdic_error = 0x40000000

abbrev pub rah_av : ℕ
rah_av = 0x80000000

abbrev pub phy_ctrl : ℕ
phy_ctrl = 0x00

abbrev pub phy_id1 : ℕ
phy_id1 = 0x02

abbrev pub phy_id2 : ℕ
phy_id2 = 0x03

abbrev pub phy_autoneg_adv : ℕ
phy_autoneg_adv = 0x04

abbrev pub phy_1000t_ctrl : ℕ
phy_1000t_ctrl = 0x09

abbrev pub m88e1000_phy_spec_ctrl : ℕ
m88e1000_phy_spec_ctrl = 0x10

abbrev pub m88e1000_phy_spec_status : ℕ
m88e1000_phy_spec_status = 0x11

abbrev pub mii_cr_full_duplex : ℕ
mii_cr_full_duplex = 0x0100

abbrev pub mii_cr_restart_auto_neg : ℕ
mii_cr_restart_auto_neg = 0x0200

abbrev pub mii_cr_auto_neg_en : ℕ
mii_cr_auto_neg_en = 0x1000

abbrev pub mii_cr_speed_select_msb : ℕ
mii_cr_speed_select_msb = 0x0040

abbrev pub mii_cr_speed_select_lsb : ℕ
mii_cr_speed_select_lsb = 0x2000

abbrev pub mii_cr_speed_1000 : ℕ
mii_cr_speed_1000 = 0x0040

abbrev pub mii_cr_speed_100 : ℕ
mii_cr_speed_100 = 0x2000

abbrev pub mii_cr_reset : ℕ
mii_cr_reset = 0x8000

abbrev pub nway_ar_10t_hd_caps : ℕ
nway_ar_10t_hd_caps = 0x0020

abbrev pub nway_ar_10t_fd_caps : ℕ
nway_ar_10t_fd_caps = 0x0040

abbrev pub nway_ar_100tx_hd_caps : ℕ
nway_ar_100tx_hd_caps = 0x0080

abbrev pub nway_ar_100tx_fd_caps : ℕ
nway_ar_100tx_fd_caps = 0x0100

abbrev pub nway_ar_pause : ℕ
nway_ar_pause = 0x0400

abbrev pub nway_ar_asm_dir : ℕ
nway_ar_asm_dir = 0x0800

abbrev pub cr_1000t_hd_caps : ℕ
cr_1000t_hd_caps = 0x0100

abbrev pub cr_1000t_fd_caps : ℕ
cr_1000t_fd_caps = 0x0200

abbrev pub m88e1000_pscr_polarity_reversal : ℕ
m88e1000_pscr_polarity_reversal = 0x0002

abbrev pub m88e1000_pscr_auto_x_1000t : ℕ
m88e1000_pscr_auto_x_1000t = 0x0040

abbrev pub m88e1000_pscr_auto_x_mode : ℕ
m88e1000_pscr_auto_x_mode = 0x0060

abbrev pub m88e1000_pscr_assert_crs_on_tx : ℕ
m88e1000_pscr_assert_crs_on_tx = 0x0800

abbrev pub m88e1000_pssr_speed_mask : ℕ
m88e1000_pssr_speed_mask = 0xc000

abbrev pub m88e1000_pssr_1000mbs : ℕ
m88e1000_pssr_1000mbs = 0x8000

abbrev pub m88e1000_pssr_100mbs : ℕ
m88e1000_pssr_100mbs = 0x4000

abbrev pub m88e1000_pssr_dplx : ℕ
m88e1000_pssr_dplx = 0x2000

abbrev pub m88e1000_pssr_link : ℕ
m88e1000_pssr_link = 0x0400

abbrev pub speed_10 : ℕ
speed_10 = 10

abbrev pub speed_100 : ℕ
speed_100 = 100

abbrev pub speed_1000 : ℕ
speed_1000 = 1000

abbrev pub half_duplex : ℕ
half_duplex = 1

abbrev pub full_duplex : ℕ
full_duplex = 2

abbrev pub num_mta_registers : ℕ
num_mta_registers = 128

abbrev pub e1000_tctl_cold : ℕ
e1000_tctl_cold = 0x003ff000

abbrev pub ait : ℕ
ait = 0x00458

abbrev pub ifs_min : ℕ
ifs_min = 64

abbrev pub ifs_max : ℕ
ifs_max = 1000

abbrev pub ifs_step : ℕ
ifs_step = 8

abbrev pub ifs_ratio : ℕ
ifs_ratio = 4

abbrev pub min_num_xmits : ℕ
min_num_xmits = 1000
