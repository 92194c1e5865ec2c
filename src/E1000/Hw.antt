-- ===== src/E1000/Hw.antt =====
-- kernel/comps/e1000/src/hw.rs: the state of the hardware and the operations on it that do not go
-- through the PHY. The delays have no effect on the state and are left out; u32 products are those of
-- a build without overflow checks, and so is the u16 sum of `update_adaptive`.
pub mod Adaptive
mod Tests
use driver_workflow.Prelude.{
  ℕ, zero, suc, ◌+◌, ◌-◌, ◌*◌, ◌/◌, ◌%◌, ◌^◌, bit_and, bit_or, Bool, true, false, not, ◌&&◌, Option,
  none, some, List, [], ◌∷◌, ◌++◌, ◌==◌, if◌then◌else◌, ltb, leb, get_or,
}
use driver_workflow.Bits.{has}
use driver_workflow.Mmio.{Registers}
use driver_workflow.E1000.Regs.{
  imc, icr, rctl, tctl, tctl_psp, status_reg, collision_distance_fd, tctl_cold_shift,
  eeprom_enet_addr,
}
use driver_workflow.E1000.LinkRegs
use driver_workflow.E1000.LinkRegs.{
  ctrl, crcerrs, algnerrc, symerrs, rxerrc, mpc, scc, ecol, mcc, latecol, colc, dc, tncrs, cexterr,
  rlec, xonrxc, xontxc, xoffrxc, xofftxc, fcruc, gprc, bprc, mprc, gptc, gorcl, gorch, gotcl, gotch,
  rnbc, ruc, rfc, roc, rjc, torl, torh, totl, toth, tpr, tpt, mptc, bptc, tsctc, tsctfc, mta, ra,
  vfta, ctrl_rst, ctrl_rfce, ctrl_tfce, status_fd, status_lu, status_speed_mask, status_speed_10,
  status_speed_100, status_speed_1000, rah_av, speed_10, speed_100, speed_1000, half_duplex,
  full_duplex, num_mta_registers, e1000_tctl_cold, ait, ifs_min, ifs_max, ifs_step, min_num_xmits,
}
use driver_workflow.E1000.Eeprom.{read_eeprom}

-- `FlowControlMode`
pub data FlowControlMode : Type 0 where
  no_pause : FlowControlMode
  rx_pause : FlowControlMode
  tx_pause : FlowControlMode
  full_pause : FlowControlMode

-- `LinkSpeed`
pub data LinkSpeed : Type 0 where
  speed10 : LinkSpeed
  speed100 : LinkSpeed
  speed1000 : LinkSpeed

-- `Duplex`
pub data Duplex : Type 0 where
  half : Duplex
  full : Duplex

-- `hash_mc_addr`
unfoldable pub hash_mc_addr : List ℕ → ℕ
hash_mc_addr mc_addr =
    bit_and (bit_or (get_or mc_addr 4 0 / 2 ^ 4) (get_or mc_addr 5 0 * 2 ^ 4)) 0xfff

-- The statistics registers, in the order of `clear_hw_counters`.
abbrev pub counters : List ℕ
counters =
    crcerrs ∷ algnerrc ∷ symerrs ∷ rxerrc ∷ mpc ∷ scc ∷ ecol ∷ mcc ∷ latecol ∷ colc ∷ dc ∷ tncrs
    ∷ cexterr ∷ rlec ∷ xonrxc ∷ xontxc ∷ xoffrxc ∷ xofftxc ∷ fcruc ∷ gprc ∷ bprc ∷ mprc ∷ gptc
    ∷ gorcl ∷ gorch ∷ gotcl ∷ gotch ∷ rnbc ∷ ruc ∷ rfc ∷ roc ∷ rjc ∷ torl ∷ torh ∷ totl ∷ toth ∷ tpr
    ∷ tpt ∷ mptc ∷ bptc ∷ tsctc ∷ tsctfc ∷ []

-- The speed and the duplex that a value of STATUS shows, for `check_for_link`.
abbrev pub speed_in : ℕ → LinkSpeed
speed_in status =
    let speed = bit_and status status_speed_mask in
    if speed == status_speed_10
    then speed10
    else if speed == status_speed_100
    then speed100
    else if speed == status_speed_1000
    then speed1000
    else speed1000

abbrev pub duplex_in : ℕ → Duplex
duplex_in status = if has status status_fd then full else half

-- The same for `get_speed_and_duplex`, as numbers.
abbrev pub speed_and_duplex_in : ℕ → ℕ × ℕ
speed_and_duplex_in status =
    let speed = bit_and status status_speed_mask in
    (
      if speed == status_speed_10
          then speed_10
          else if speed == status_speed_100
          then speed_100
          else speed_1000,
      if has status status_fd then full_duplex else half_duplex,
    )

module _ ⦃io : Registers⦄ where
  -- `E1000Hw`, with the device behind its registers.
  pub record E1000Hw : Type 0 where
    pub world : io.World
    pub fc : FlowControlMode
    pub original_fc : FlowControlMode
    pub fc_autoneg : Bool
    pub fc_high_water : ℕ
    pub fc_low_water : ℕ
    pub fc_pause_time : ℕ
    pub fc_send_xon : Bool
    pub perm_mac_addr : List ℕ
    pub mac_addr : List ℕ
    pub phy_addr : ℕ
    pub phy_id : ℕ
    pub autoneg_advertised : ℕ
    pub autoneg : Bool
    pub forced_speed_duplex : ℕ
    pub wait_autoneg_complete : Bool
    pub get_link_status : Bool
    pub adaptive_ifs : Bool
    pub ifs_params_forced : Bool
    pub in_ifs_mode : Bool
    pub current_ifs_val : ℕ
    pub ifs_min_val : ℕ
    pub ifs_max_val : ℕ
    pub ifs_step_size : ℕ
    pub ifs_ratio : ℕ
    pub collision_delta : ℕ
    pub tx_packet_delta : ℕ

  -- `E1000Hw::new`
  abbrev pub new : io.World → E1000Hw
  new w = record {
    world = w;
    fc = full_pause;
    original_fc = full_pause;
    fc_autoneg = true;
    fc_high_water = 0;
    fc_low_water = 0;
    fc_pause_time = 0xffff;
    fc_send_xon = true;
    perm_mac_addr = 0 ∷ 0 ∷ 0 ∷ 0 ∷ 0 ∷ 0 ∷ [];
    mac_addr = 0 ∷ 0 ∷ 0 ∷ 0 ∷ 0 ∷ 0 ∷ [];
    phy_addr = 1;
    phy_id = 0;
    autoneg_advertised = 0x2f;
    autoneg = true;
    forced_speed_duplex = 0;
    wait_autoneg_complete = false;
    get_link_status = true;
    adaptive_ifs = true;
    ifs_params_forced = false;
    in_ifs_mode = false;
    current_ifs_val = 0;
    ifs_min_val = 0;
    ifs_max_val = 0;
    ifs_step_size = 0;
    ifs_ratio = 0;
    collision_delta = 0;
    tx_packet_delta = 0;
  }

  -- `reset_hw`
  unfoldable pub reset_hw : E1000Hw → E1000Hw
  reset_hw h =
      let w1 = io.write h.world imc 0xffff_ffff in
      let w2 = io.write w1 rctl 0 in
      let w3 = io.write w2 tctl tctl_psp in
      let w4 = (io.read w3 status_reg).1 in
      let (v, w5) = io.read w4 ctrl in
      let w6 = io.write w5 ctrl (bit_or v ctrl_rst) in
      let w7 = io.write w6 imc 0xffff_ffff in record h { world = (io.read w7 icr).1 }

  -- `force_mac_fc`, and the bits that it sets for a mode.
  abbrev pub fc_bits : FlowControlMode → ℕ → ℕ
  fc_bits no_pause v = v
  fc_bits rx_pause v = bit_or v ctrl_rfce
  fc_bits tx_pause v = bit_or v ctrl_tfce
  fc_bits full_pause v = bit_or v (bit_or ctrl_rfce ctrl_tfce)

  unfoldable pub force_mac_fc : E1000Hw → E1000Hw
  force_mac_fc h =
      let (v, w) = io.read h.world ctrl in
      let cleared = bit_and v (0xffff_ffff - bit_or ctrl_tfce ctrl_rfce) in
      record h { world = io.write w ctrl (fc_bits h.fc cleared) }

  -- `check_for_link`
  unfoldable pub check_for_link : E1000Hw → (Bool × Option LinkSpeed × Option Duplex) × E1000Hw
  check_for_link h =
      let (status, w) = io.read h.world status_reg in
      if not (has status status_lu)
      then ((false, none, none), record h { world = w; get_link_status = true })
      else (
        (true, some (speed_in status), some (duplex_in status)),
        record h { world = w; get_link_status = false },
      )

  -- `get_speed_and_duplex`
  unfoldable pub get_speed_and_duplex : E1000Hw → (ℕ × ℕ) × E1000Hw
  get_speed_and_duplex h =
      let (status, w) = io.read h.world status_reg in
      (speed_and_duplex_in status, record h { world = w })

  -- The loop of `read_mac_addr`, with `n` words left from word `i` on; `false` for an error, on which
  -- the addresses stay.
  unfoldable pub mac_from : ℕ → ℕ → List ℕ → E1000Hw → Bool × E1000Hw
  mac_from zero i mac h = (true, record h { perm_mac_addr = mac; mac_addr = mac })
  mac_from (suc n) i mac h =
      let (v, w) = read_eeprom h.world (eeprom_enet_addr + i) in
      elim v [
        | none ↦ (false, record h { world = w })
        | some x ↦
            mac_from n (i + 1) (mac ++ (bit_and x 0xff ∷ x / 256 ∷ [])) (record h { world = w })
      ]

  -- `read_mac_addr`
  unfoldable pub read_mac_addr : E1000Hw → Bool × E1000Hw
  read_mac_addr h = mac_from 3 0 [] h

  -- `rar_set`
  unfoldable pub rar_set : E1000Hw → List ℕ → ℕ → E1000Hw
  rar_set h addr index =
      let b = λ (i : ℕ). get_or addr i 0 in
      let ral = bit_or (bit_or (bit_or (b 0) (b 1 * 2 ^ 8)) (b 2 * 2 ^ 16)) (b 3 * 2 ^ 24) in
      let rah = bit_or (bit_or (b 4) (b 5 * 2 ^ 8)) rah_av in
      let w = io.write h.world (ra + index * 8) ral in
      record h { world = io.write w (ra + index * 8 + 4) rah }

  -- `config_collision_dist`
  unfoldable pub config_collision_dist : E1000Hw → E1000Hw
  config_collision_dist h =
      let (v, w) = io.read h.world tctl in
      let cleared = bit_and v (0xffff_ffff - e1000_tctl_cold) in
      let w' = io.write w tctl (bit_or cleared (collision_distance_fd * 2 ^ tctl_cold_shift)) in
      record h { world = (io.read w' status_reg).1 }

  -- `reset_adaptive`
  unfoldable pub reset_adaptive : E1000Hw → E1000Hw
  reset_adaptive h = record h {
    current_ifs_val = 0;
    ifs_min_val = ifs_min;
    ifs_max_val = ifs_max;
    ifs_step_size = ifs_step;
    ifs_ratio = LinkRegs.ifs_ratio;
    in_ifs_mode = false;
    world = io.write h.world ait 0;
  }

  -- What `update_adaptive` does while there are many collisions, and once there is little traffic.
  unfoldable pub raise_ifs : E1000Hw → E1000Hw
  raise_ifs h =
      let next =
        if h.current_ifs_val == 0
        then h.ifs_min_val
        else (h.current_ifs_val + h.ifs_step_size) % 2 ^ 16 in
      if ltb h.current_ifs_val h.ifs_max_val
      then record h {
        current_ifs_val = next;
        world = io.write h.world ait next;
        in_ifs_mode = true;
      }
      else h

  unfoldable pub drop_ifs : E1000Hw → E1000Hw
  drop_ifs h = record h { current_ifs_val = 0; in_ifs_mode = false; world = io.write h.world ait 0 }

  -- `update_adaptive`
  unfoldable pub update_adaptive : E1000Hw → E1000Hw
  unfolding raise_ifs drop_ifs
  update_adaptive h =
      let busy =
        ltb min_num_xmits h.tx_packet_delta
        && ltb (h.tx_packet_delta * h.ifs_step_size % 2 ^ 32)
            (h.collision_delta * h.ifs_ratio % 2 ^ 32) in
      if not h.adaptive_ifs
      then h
      else if h.ifs_params_forced
      then h
      else if busy
      then raise_ifs h
      else if h.in_ifs_mode && leb h.tx_packet_delta min_num_xmits
      then drop_ifs h
      else h

  -- The two loops of `update_mc_addr_list`.
  unfoldable pub zero_mta : ℕ → ℕ → io.World → io.World
  zero_mta zero i w = w
  zero_mta (suc n) i w = zero_mta n (i + 1) (io.write w (mta + i * 4) 0)

  unfoldable pub set_mc_addrs : List (List ℕ) → io.World → io.World
  set_mc_addrs [] w = w
  set_mc_addrs (addr ∷ addrs) w =
      let hash = hash_mc_addr addr in
      let reg = mta + hash / 2 ^ 5 * 4 in
      let (mta_val, w') = io.read w reg in
      set_mc_addrs addrs (io.write w' reg (bit_or mta_val (2 ^ bit_and hash 0x1f)))

  -- `update_mc_addr_list`
  unfoldable pub update_mc_addr_list : E1000Hw → List (List ℕ) → E1000Hw
  update_mc_addr_list h mc_addrs = record h {
    world = set_mc_addrs mc_addrs (zero_mta num_mta_registers 0 h.world);
  }

  -- `write_vfta`
  unfoldable pub write_vfta : E1000Hw → ℕ → ℕ → E1000Hw
  write_vfta h offset value = record h { world = io.write h.world (vfta + offset * 4) value }

  -- `clear_hw_counters`
  unfoldable pub read_all : List ℕ → io.World → io.World
  read_all [] w = w
  read_all (r ∷ rs) w = read_all rs (io.read w r).1

  abbrev pub clear_hw_counters : E1000Hw → E1000Hw
  clear_hw_counters h = record h { world = read_all counters h.world }
