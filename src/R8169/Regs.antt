-- ===== src/R8169/Regs.antt =====
-- kernel/comps/r8169/src/regs.rs, device.rs and phy.rs: the constants that the modelled code uses.
use driver_workflow.Prelude.{ℕ, ◌^◌, ◌*◌, ◌-◌, ◌/◌, bit_or}

abbrev pub desc_own : ℕ
desc_own = 2 ^ 31

abbrev pub ring_end : ℕ
ring_end = 2 ^ 30

abbrev pub first_frag : ℕ
first_frag = 2 ^ 29

abbrev pub last_frag : ℕ
last_frag = 2 ^ 28

abbrev pub num_tx_desc : ℕ
num_tx_desc = 256

abbrev pub num_rx_desc : ℕ
num_rx_desc = 256

abbrev pub rx_buf_size : ℕ
rx_buf_size = 16 * 1024 - 1

abbrev pub tx_stop_thrs : ℕ
tx_stop_thrs = 2

abbrev pub eth_fcs_len : ℕ
eth_fcs_len = 4

abbrev pub rx_rwt : ℕ
rx_rwt = 2 ^ 22

abbrev pub rx_res : ℕ
rx_res = 2 ^ 21

abbrev pub rx_runt : ℕ
rx_runt = 2 ^ 20

abbrev pub rx_crc : ℕ
rx_crc = 2 ^ 19

abbrev pub tx_poll : ℕ
tx_poll = 0x38

abbrev pub npq : ℕ
npq = 0x40

abbrev pub tx_desc_start_addr_low : ℕ
tx_desc_start_addr_low = 0x20

abbrev pub tx_desc_start_addr_high : ℕ
tx_desc_start_addr_high = 0x24

abbrev pub rx_config : ℕ
rx_config = 0x44

abbrev pub rx_config_accept_mask : ℕ
rx_config_accept_mask = 0x3f

abbrev pub rx_max_size : ℕ
rx_max_size = 0xda

abbrev pub rx_desc_addr_low : ℕ
rx_desc_addr_low = 0xe4

abbrev pub rx_desc_addr_high : ℕ
rx_desc_addr_high = 0xe8

abbrev pub max_tx_packet_size : ℕ
max_tx_packet_size = 0xec

abbrev pub tx_packet_max : ℕ
tx_packet_max = 8064 / 2 ^ 7

abbrev pub rx_proto_tcp : ℕ
rx_proto_tcp = 2 ^ 17

abbrev pub rx_proto_udp : ℕ
rx_proto_udp = 2 ^ 18

abbrev pub rx_proto_mask : ℕ
rx_proto_mask = bit_or (2 ^ 18) (2 ^ 17)

abbrev pub rx_cs_fail_mask : ℕ
rx_cs_fail_mask = bit_or (bit_or (2 ^ 16) (2 ^ 15)) (2 ^ 14)

abbrev pub rx_vlan_tag_bit : ℕ
rx_vlan_tag_bit = 2 ^ 16

abbrev pub mac0 : ℕ
mac0 = 0x00

abbrev pub mac4 : ℕ
mac4 = 0x04

abbrev pub chip_cmd : ℕ
chip_cmd = 0x37

abbrev pub intr_mask : ℕ
intr_mask = 0x3c

abbrev pub intr_status : ℕ
intr_status = 0x3e

abbrev pub link_chg : ℕ
link_chg = 0x0020

abbrev pub rx_overflow : ℕ
rx_overflow = 0x0010

abbrev pub tx_err : ℕ
tx_err = 0x0008

abbrev pub tx_ok : ℕ
tx_ok = 0x0004

abbrev pub rx_err : ℕ
rx_err = 0x0002

abbrev pub rx_ok : ℕ
rx_ok = 0x0001

abbrev pub cmd_rx_enb : ℕ
cmd_rx_enb = 0x08

abbrev pub cmd_tx_enb : ℕ
cmd_tx_enb = 0x04

abbrev pub rtl_event_napi : ℕ
rtl_event_napi = bit_or (bit_or (bit_or (bit_or rx_ok tx_ok) rx_overflow) tx_err) rx_err

abbrev pub intr_mask_bits : ℕ
intr_mask_bits = bit_or rtl_event_napi link_chg

abbrev pub rx_pool_seg_size : ℕ
rx_pool_seg_size = 2048

abbrev pub rx_desc_buf_size : ℕ
rx_desc_buf_size = rx_pool_seg_size

abbrev pub eriar_type_shift : ℕ
eriar_type_shift = 16

abbrev pub eriar_mask_shift : ℕ
eriar_mask_shift = 12

abbrev pub eriar : ℕ
eriar = 0x74

abbrev pub eridr : ℕ
eridr = 0x70

abbrev pub gphy_ocp : ℕ
gphy_ocp = 0xb8

abbrev pub ocpar_flag : ℕ
ocpar_flag = 0x80000000

abbrev pub ocp_std_phy_base : ℕ
ocp_std_phy_base = 0xa400

abbrev pub eriar_flag : ℕ
eriar_flag = 0x80000000

abbrev pub eriar_write_cmd : ℕ
eriar_write_cmd = 0x80000000

abbrev pub eriar_read_cmd : ℕ
eriar_read_cmd = 0x00000000

abbrev pub eriar_exgmac : ℕ
eriar_exgmac = 0x00 * 2 ^ eriar_type_shift

abbrev pub eriar_mask_1111 : ℕ
eriar_mask_1111 = 0xf * 2 ^ eriar_mask_shift

abbrev pub phy_status : ℕ
phy_status = 0x6c

abbrev pub link_status_flag : ℕ
link_status_flag = 0x02

abbrev pub gbps_f_1000 : ℕ
gbps_f_1000 = 0x10

abbrev pub mbps_100 : ℕ
mbps_100 = 0x08

abbrev pub mbps_10 : ℕ
mbps_10 = 0x04

abbrev pub full_dup : ℕ
full_dup = 0x01

abbrev pub mii_bmcr : ℕ
mii_bmcr = 0x00

abbrev pub bmcr_reset : ℕ
bmcr_reset = 0x8000

abbrev pub bmcr_pdown : ℕ
bmcr_pdown = 0x0800
